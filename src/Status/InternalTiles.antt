-- ===== src/Status/InternalTiles.antt =====
-- The tables of `P2PNodes`, `GoRuntimeStats` and `WorkerStats` (routes/Status.js).
use ribs.Base.{Option, none, some, List, [], ◌∷◌, ◌++◌, map, Text, codes, join, take}
use ribs.Number.Defs.{Number, of_ℕ, add, mul, div, or_nan}
use ribs.Number.Print.{to_text}
use ribs.Fmt.Units.{format_num, format_bytes_binary}
use ribs.Status.Cells.{Row, plain, plain_text, followed_by, num, bytes, field}

-- A value of the reply to "P2PNodes".
pub record NodeInfo : Type 0 where
  pub peer_id : Text
  pub listen : List Text
  pub peers : Number

-- `fetchStatus` of `P2PNodes`: an error leaves the nodes.
unfoldable pub fetch_nodes :
    Option (List (Text × NodeInfo)) → List (Text × NodeInfo) → List (Text × NodeInfo)
fetch_nodes none nodes = nodes
fetch_nodes (some node_stats) nodes = node_stats

-- A line: the name, the text that a click copies, the title, the text shown and the peers.
pub record NodeRow : Type 0 where
  pub name : Text
  pub copied : Text
  pub title : Text
  pub shown : Text
  pub peers : Text

unfoldable pub node_row : Text × NodeInfo → NodeRow
node_row (name, node) = record {
  name = name;
  copied = node.peer_id;
  title =
      codes "PeerID: "
      ++ (node.peer_id ++ (10 ∷ 10 ∷ [] ++ (codes "Listen Addresses: " ++ join 10 node.listen)));
  shown = take 10 node.peer_id ++ codes "...";
  peers = codes "Peers: " ++ to_text node.peers;
}

unfoldable pub node_rows : List (Text × NodeInfo) → List NodeRow
unfolding node_row
node_rows nodes = map node_row nodes

-- The reply to "RuntimeStats" that the table shows.
pub record RuntimeStats : Type 0 where
  pub alloc : Number
  pub total_alloc : Number
  pub heap_alloc : Number
  pub heap_sys : Number
  pub heap_objects : Number
  pub num_gc : Number

-- The second argument is the average of `gcPausePercentEMARef`.
unfoldable pub runtime_rows : Option RuntimeStats → Number → List Row
runtime_rows s gc_pause_ema =
    (codes "Alloc:", bytes (field (λ r. r.alloc) s))
    ∷ (codes "TotalAlloc:", bytes (field (λ r. r.total_alloc) s))
    ∷ (codes "HeapAlloc:", bytes (field (λ r. r.heap_alloc) s))
    ∷ (codes "HeapSys:", bytes (field (λ r. r.heap_sys) s))
    ∷ (codes "HeapObjects:", num (field (λ r. r.heap_objects) s))
    ∷ (codes "Number of GC:", num (field (λ r. r.num_gc) s))
    ∷ (
      codes "GC Pause (% of time):",
      followed_by (codes "%") (format_num (mul gc_pause_ema (of_ℕ 100)) 3),
    )
    ∷ []

-- The prop `stats` of the workers; before the first reply its fields are undefined.
pub record Workers : Type 0 where
  pub available : Option Number
  pub in_finalize : Option Number
  pub in_comm_p : Option Number
  pub task_queue : Option Number

abbrev pub in_use : Workers → Number
in_use s = add (or_nan s.in_finalize) (or_nan s.in_comm_p)

-- The second row is the bar, whose width stands for its text.
unfoldable pub worker_rows : Workers → Number → List Row
worker_rows s comm_p_rate =
    (codes "Use:", followed_by (plain_text s.available) (some (to_text (in_use s) ++ codes " / ")))
    ∷ ([], some (to_text (mul (div (in_use s) (or_nan s.available)) (of_ℕ 100)) ++ codes "%"))
    ∷ (codes "Group Finalize:", plain s.in_finalize)
    ∷ (codes "Compute Data CID", plain s.in_comm_p)
    ∷ (codes "Queued Tasks:", plain s.task_queue)
    ∷ (codes "DataCID rate:", followed_by (codes "/s") (format_bytes_binary comm_p_rate))
    ∷ []
