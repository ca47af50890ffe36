-- ===== src/Status/WalletTable.antt =====
-- The table of `WalletInfoTile` (routes/Status.js).
use ribs.Base.{Option, none, some, List, [], ◌∷◌, ◌++◌, Text, codes, if◌then◌else◌}
use ribs.Status.Wallet.{Operation, add, unset, withdraw, Tile, Amount, truncate_address}

-- The prop `walletInfo`.
pub record WalletInfo : Type 0 where
  pub addr : Text
  pub id_addr : Text
  pub balance : Text
  pub market_balance : Text
  pub market_locked : Text
  pub data_cap : Text

-- The field and the button that are shown while the menu is open.
pub record Menu : Type 0 where
  pub value : Amount
  pub button : Text

abbrev pub submit_label : Operation → Text
submit_label add = codes "Add"
submit_label unset = codes "Withdraw"
submit_label withdraw = codes "Withdraw"

-- The links have their texts with their addresses; `menu` stands below the market balance.
pub record WalletTable : Type 0 where
  pub address : Text
  pub links : List (Text × Text)
  pub balance : Text
  pub market_balance : Text
  pub menu : Option Menu
  pub market_locked : Text
  pub data_cap : Text

-- Nothing is shown before the first reply.
unfoldable pub wallet_table : Option WalletInfo → Tile → Option WalletTable
wallet_table none t = none
wallet_table (some info) t = some (record {
  address = truncate_address info.addr;
  links =
      (codes "FilFox", codes "https://filfox.info/en/address/" ++ info.addr)
      ∷ (codes "DcapStats", codes "https://datacapstats.io/clients/" ++ info.id_addr)
      ∷ (codes "DagParts", codes "https://dag.parts/client/" ++ info.id_addr)
      ∷ [];
  balance = info.balance;
  market_balance = info.market_balance;
  menu =
      if t.dropdown_open
      then some (record { value = t.amount; button = submit_label t.operation_type })
      else none;
  market_locked = info.market_locked;
  data_cap = info.data_cap;
})
