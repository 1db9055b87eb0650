-- ===== src/Db/System/ForeignKeys/Heard.antt =====
-- The answer that `pgBlockWorker` of db/postgres.go hears is that of the signal that it sent last, whose
-- rows are then committed.
use blkchain.Db.System.Ends.{Ends-if}
use blkchain.Prelude.{
  ◌≡◌, ◌≢◌, ◌≤◌, refl, subst, true, false, ◌||◌, Option, none, some, List, ◌∷◌, Bool-cases, inl,
  inr, arith,
}
use blkchain.Db.Worker.{Action, await, Channel, block_ch, tx_ch, tx_in_ch, tx_out_ch}
use blkchain.Db.System.{Config, Stage, Stages, stage, set_stage, State, hear}
use blkchain.Db.System.Debts.{debts, debt}
use blkchain.Db.System.ForeignKeys.Link.{skip}
use blkchain.Db.System.ForeignKeys.Refs.{gives_block, needs_block, gives_tx, needs_in, needs_out}
use blkchain.Db.System.ForeignKeys.Phase.{
  Phase, after, Settled, ends_asking, asked-ends, debts-two, is_block, is_tx,
}
use blkchain.Db.System.ForeignKeys.Worked.{ordered_rest}
use blkchain.Db.System.ForeignKeys.Good.{IsGood, catching_up, Good, KeepsGood}

debt-le : (c : Channel) (ss : Stages) → debt (stage c ss) ≤ debts ss
unfolding debts
debt-le block_ch ss = omega arith
debt-le tx_ch ss = omega arith
debt-le tx_in_ch ss = omega arith
debt-le tx_out_ch ss = omega arith

module _ {A : Type 0} (st : Stage A) where
  debt-answering : st.answering ≡ true → 1 ≤ debt st
  unfolding debt
  debt-answering h = rw (h) (omega arith)

  debt-ends : ends_asking st.queue ≡ true → 1 ≤ debt st
  unfolding debt
  debt-ends h = omega (arith, asked-ends st.queue h)

  debt-both : st.answering ≡ true → ends_asking st.queue ≡ true → 2 ≤ debt st
  unfolding debt
  debt-both h e = rw (h) (omega (arith, asked-ends st.queue e))

one_answer :
    (c d : Channel) (ss : Stages)
    → debts ss ≡ 1
    → (stage c ss).answering ≡ true
    → ends_asking (stage d ss).queue ≢ true
one_answer c d ss one h e =
    let same = debts-two c d ss one (debt-answering (stage c ss) h) (debt-ends (stage d ss) e) in
    let h' = subst (λ k. (stage k ss).answering ≡ true) same h in
    let two = debt-both (stage d ss) h' e in omega (arith, one, two, debt-le d ss)

is_block-some : (o : Option Channel) → is_block o ≡ true → o ≡ some block_ch
is_block-some none h = absurd (cc)
is_block-some (some block_ch) h = refl
is_block-some (some tx_ch) h = absurd (cc)
is_block-some (some tx_in_ch) h = absurd (cc)
is_block-some (some tx_out_ch) h = absurd (cc)

is_tx-some : (o : Option Channel) → is_tx o ≡ true → o ≡ some tx_ch
is_tx-some none h = absurd (cc)
is_tx-some (some block_ch) h = absurd (cc)
is_tx-some (some tx_ch) h = refl
is_tx-some (some tx_in_ch) h = absurd (cc)
is_tx-some (some tx_out_ch) h = absurd (cc)

module _ (cfg : Config) (s : State) (p : Phase) (rest : List Action) where
  module _ (g : Good (await ∷ rest) s.tables s.stages p) (one : debts s.stages ≡ 1) (c : Channel)
      (h : (stage c s.stages).answering ≡ true) where
    heard_block : p.blocks || is_block p.next ≡ true → Settled s.tables.t_blocks s.stages.s_block
    heard_block e = elim (Bool-cases p.blocks) [
      | inl b ↦ g.blocks_done b
      | inr b ↦ elim (g.block_acked (is_block-some p.next (ground arith))) [
        | inl a ↦ a.1
        | inr a ↦ absurd (one_answer c block_ch s.stages one h a)
      ]
    ]

    heard_tx : p.txs || is_tx p.next ≡ true → Settled s.tables.t_txs.txs s.stages.s_tx
    heard_tx e = elim (Bool-cases p.txs) [
      | inl b ↦ g.txs_done b
      | inr b ↦ elim (g.tx_acked (is_tx-some p.next (ground arith))) [
        | inl a ↦ a.1
        | inr a ↦ absurd (one_answer c tx_ch s.stages one h a)
      ]
    ]

    heard : Good rest s.tables s.stages (after await p)
    unfolding gives_block gives_tx
    heard = record {
      opened = g.opened;
      blocks_link = skip gives_block needs_block await rest g.blocks_link refl;
      ins_link = skip gives_tx needs_in await rest g.ins_link refl;
      outs_link = skip gives_tx needs_out await rest g.outs_link refl;
      order = ordered_rest cfg s p await rest g;
      blocks_done = heard_block;
      txs_done = heard_tx;
      block_acked = λ h. absurd (cc);
      tx_acked = λ h. absurd (cc);
    }

  -- Nothing but the answer changes.
  quiet_answer :
      (c : Channel)
      → Good rest s.tables s.stages (after await p)
      → Good rest s.tables
          (set_stage c (record (stage c s.stages) { answering = false }) s.stages)
          (after await p)
  quiet_answer block_ch g = record {
    opened = g.opened;
    blocks_link = g.blocks_link;
    ins_link = g.ins_link;
    outs_link = g.outs_link;
    order = g.order;
    blocks_done = g.blocks_done;
    txs_done = g.txs_done;
    block_acked = λ h. absurd (cc);
    tx_acked = λ h. absurd (cc);
  }
  quiet_answer tx_ch g = record {
    opened = g.opened;
    blocks_link = g.blocks_link;
    ins_link = g.ins_link;
    outs_link = g.outs_link;
    order = g.order;
    blocks_done = g.blocks_done;
    txs_done = g.txs_done;
    block_acked = λ h. absurd (cc);
    tx_acked = λ h. absurd (cc);
  }
  quiet_answer tx_in_ch g = record {
    opened = g.opened;
    blocks_link = g.blocks_link;
    ins_link = g.ins_link;
    outs_link = g.outs_link;
    order = g.order;
    blocks_done = g.blocks_done;
    txs_done = g.txs_done;
    block_acked = λ h. absurd (cc);
    tx_acked = λ h. absurd (cc);
  }
  quiet_answer tx_out_ch g = record {
    opened = g.opened;
    blocks_link = g.blocks_link;
    ins_link = g.ins_link;
    outs_link = g.outs_link;
    order = g.order;
    blocks_done = g.blocks_done;
    txs_done = g.txs_done;
    block_acked = λ h. absurd (cc);
    tx_acked = λ h. absurd (cc);
  }

  pub await-Good :
      (c : Channel)
      → Good (await ∷ rest) s.tables s.stages p
      → debts s.stages ≡ 1
      → KeepsGood (hear (catching_up cfg) c (await ∷ rest) s)
  unfolding hear
  await-Good c g one =
      Ends-if IsGood (stage c s.stages).answering _
        (λ h. (after await p, quiet_answer c (heard g one c h)))
