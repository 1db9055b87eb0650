-- ===== src/Db/System/ForeignKeys/Refs.antt =====
-- The keys of rows that the actions of the worker of db/postgres.go send, and those that they refer to.
use blkchain.Prelude.{[], ◌∷◌}
use blkchain.Db.{row, commit_signal}
use blkchain.Db.Worker.{Action, send, await, reply, do_tx, block_ch, tx_ch, tx_in_ch, tx_out_ch}
use blkchain.Db.System.ForeignKeys.{Keys, keys, keyed}
use blkchain.Db.System.ForeignKeys.Sides.{block_keys, block_refs, tx_keys, in_refs, out_refs}

-- The keys of blocks that an action sends, and those that it refers to.
unfoldable pub gives_block : Action → Keys
gives_block (send block_ch m) = keys (keyed block_keys m ∷ [])
gives_block (send tx_ch m) = []
gives_block (send tx_in_ch m) = []
gives_block (send tx_out_ch m) = []
gives_block await = []
gives_block (reply r) = []
gives_block (do_tx b n tx) = []

unfoldable pub needs_block : Action → Keys
needs_block (send block_ch m) = []
needs_block (send tx_ch (row tr)) = block_refs tr
needs_block (send tx_ch (commit_signal s)) = []
needs_block (send tx_in_ch m) = []
needs_block (send tx_out_ch m) = []
needs_block await = []
needs_block (reply r) = []
needs_block (do_tx b n tx) = b ∷ []

-- The same for transactions, with the references of inputs and of outputs.
unfoldable pub gives_tx : Action → Keys
gives_tx (send block_ch m) = []
gives_tx (send tx_ch m) = keys (keyed tx_keys m ∷ [])
gives_tx (send tx_in_ch m) = []
gives_tx (send tx_out_ch m) = []
gives_tx await = []
gives_tx (reply r) = []
gives_tx (do_tx b n tx) = []

unfoldable pub needs_in : Action → Keys
needs_in (send block_ch m) = []
needs_in (send tx_ch m) = []
needs_in (send tx_in_ch (row r)) = in_refs r
needs_in (send tx_in_ch (commit_signal s)) = []
needs_in (send tx_out_ch m) = []
needs_in await = []
needs_in (reply r) = []
needs_in (do_tx b n tx) = []

unfoldable pub needs_out : Action → Keys
needs_out (send block_ch m) = []
needs_out (send tx_ch m) = []
needs_out (send tx_in_ch m) = []
needs_out (send tx_out_ch (row r)) = out_refs r
needs_out (send tx_out_ch (commit_signal s)) = []
needs_out await = []
needs_out (reply r) = []
needs_out (do_tx b n tx) = []
