-- ===== src/Db/System/ForeignKeys/Good.antt =====
-- The invariant of the goroutines of db/postgres.go that keeps the references between the tables.
use blkchain.Db.System.Ends.{Ends}
use blkchain.Prelude.{◌≡◌, true, false, Option, some, List}
use blkchain.Db.Worker.{Action, block_ch, tx_ch}
use blkchain.Db.System.{Config, Stages, Tables, State}
use blkchain.Db.System.ForeignKeys.Link.{LinkInv}
use blkchain.Db.System.ForeignKeys.Sides.{
  blocks_side, block_txs_side, txs_side, tx_ins_side, tx_outs_side, IsOpen,
}
use blkchain.Db.System.ForeignKeys.Refs.{gives_block, needs_block, gives_tx, needs_in, needs_out}
use blkchain.Db.System.ForeignKeys.Phase.{Phase, ordered, Settled, Acked}

-- The tables of a catch-up: there is a database, and its constraints exist.
abbrev pub catching_up : Config → Config
catching_up cfg = record cfg { has_db = true; first_import = false }

-- With the actions `todo` ahead.
pub record Good (todo : List Action) (t : Tables) (ss : Stages) (p : Phase) : Type 0 where
  pub opened : IsOpen t
  pub blocks_link : LinkInv gives_block needs_block todo (blocks_side t ss) (block_txs_side t ss)
  pub ins_link : LinkInv gives_tx needs_in todo (txs_side t ss) (tx_ins_side t ss)
  pub outs_link : LinkInv gives_tx needs_out todo (txs_side t ss) (tx_outs_side t ss)
  pub order : ordered p todo ≡ true
  pub blocks_done : p.blocks ≡ true → Settled t.t_blocks ss.s_block
  pub txs_done : p.txs ≡ true → Settled t.t_txs.txs ss.s_tx
  pub block_acked : p.next ≡ some block_ch → Acked t.t_blocks ss.s_block
  pub tx_acked : p.next ≡ some tx_ch → Acked t.t_txs.txs ss.s_tx

abbrev pub IsGood : State → Type 0
IsGood s = (p : Phase) × Good s.todo s.tables s.stages p

abbrev pub KeepsGood : Option State → Type 0
KeepsGood o = Ends IsGood o
