-- ===== src/Db/System/Numbered/Whole.antt =====
-- The rows that the table of blocks of db/postgres.go gets in the end, and the operations that
-- leave them as they are.
use blkchain.Prelude.{
  ℕ, ◌+◌, ◌%◌, ◌^◌, ◌≡◌, refl, sym, ap, ◌∙◌, Bool, true, false, List, [], ◌∷◌, ◌++◌, map,
  append_assoc,
}
use blkchain.Db.{BlockRec, BlockRecSync, BlockRow, Msg, row, commit_signal}
use blkchain.Db.Table.{Table, commit}
use blkchain.Db.Table.Works
use blkchain.Db.Table.Works.{renew}
use blkchain.Db.Writers.{TableName, blocks, block_row, write_block}
use blkchain.Db.Writers.Complete.{rows}
use blkchain.Db.Worker
use blkchain.Db.Worker.{
  Action, send, await, reply, do_tx, Channel, block_ch, tx_ch, tx_in_ch, tx_out_ch, Carried,
  Heights, to_write,
}
use blkchain.Db.System.{Config}
use blkchain.Db.System.Numbered.{numbered, HaveHeights, sent, sent-block_actions}

rows-append : {A : Type 0} (ms ns : List (Msg A)) → rows (ms ++ ns) ≡ rows ms ++ rows ns
unfolding rows
rows-append [] ns = refl
rows-append (row a ∷ ms) ns = ap (λ l. a ∷ l) (rows-append ms ns)
rows-append (commit_signal s ∷ ms) ns = rows-append ms ns

module _ (cfg : Config) (w : (name : TableName) (n : ℕ) → cfg.works name n ≡ true)
    (goal : List BlockRow) where
  -- The rows that the table of blocks gets in the end: those that it has, and those of the blocks that
  -- wait in the channel, that the worker has to send, and that are still to come.
  abbrev pub all_rows :
      Table BlockRow → List (Msg BlockRec) → List Action → ℕ → List BlockRecSync → List BlockRow
  all_rows t q todo id bs =
      t.committed
      ++ (t.pending ++ map block_row (rows q ++ (sent todo ++ numbered cfg.sha256 id bs)))

  pub record Whole (t : Table BlockRow) (q : List (Msg BlockRec)) (todo : List Action) (id : ℕ)
      (bs : List BlockRecSync) (returned : Bool) : Type 0 where
    pub opened : t.open_stmt ≡ true
    pub heights : HaveHeights bs
    pub total : all_rows t q todo id bs ≡ goal
    pub emptied : returned ≡ true → t.pending ≡ []

  module _ {t : Table BlockRow} {q : List (Msg BlockRec)} {todo : List Action} {id : ℕ}
      {bs : List BlockRecSync} {r : Bool} (i : Whole t q todo id bs r) where
    -- The actions change, and not what is still to be written.
    pub retodo : (todo' : List Action) → sent todo' ≡ sent todo → Whole t q todo' id bs r
    retodo todo' e = record {
      opened = i.opened;
      heights = i.heights;
      total =
          ap
            (λ l.
              t.committed
              ++ (t.pending ++ map block_row (rows q ++ (l ++ numbered cfg.sha256 id bs))))
            e
          ∙ i.total;
      emptied = i.emptied;
    }

  pub send-Whole :
      {t : Table BlockRow} {q : List (Msg BlockRec)} {rest : List Action} {id : ℕ}
      {bs : List BlockRecSync} {r : Bool} (m : Msg BlockRec)
      → Whole t q (send block_ch m ∷ rest) id bs r
      → Whole t (q ++ m ∷ []) rest id bs r
  unfolding sent
  send-Whole {t} {q} {rest} {id} {bs} m i = record {
    opened = i.opened;
    heights = i.heights;
    total =
        ap (λ l. t.committed ++ (t.pending ++ map block_row l))
          (ap (λ l. l ++ (sent rest ++ numbered cfg.sha256 id bs)) (rows-append q (m ∷ []))
            ∙ (append_assoc (rows q) (rows (m ∷ [])) (sent rest ++ numbered cfg.sha256 id bs)
                ∙ ap (λ l. rows q ++ l)
                    (sym (append_assoc (rows (m ∷ [])) (sent rest) (numbered cfg.sha256 id bs)))))
        ∙ i.total;
    emptied = i.emptied;
  }

  pub write-Whole :
      {t : Table BlockRow} {ms : List (Msg BlockRec)} {todo : List Action} {id : ℕ}
      {bs : List BlockRecSync} (m : Msg BlockRec)
      → Whole t (m ∷ ms) todo id bs false
      → Whole (write_block true cfg.works t m) ms todo id bs false
  unfolding write_block rows
  write-Whole {t} {ms} {todo} {id} {bs} (row br) i = record {
    opened = Works.exec-open (cfg.works blocks) (w blocks) t (block_row br) ∙ i.opened;
    heights = i.heights;
    total =
        Works.total-exec (cfg.works blocks) (w blocks) t (block_row br)
          (map block_row (rows ms ++ (sent todo ++ numbered cfg.sha256 id bs))) i.opened
        ∙ i.total;
    emptied = λ h. absurd (cc);
  }
  write-Whole {t} {ms} {todo} {id} {bs} (commit_signal s) i = record {
    opened = Works.renew-open (cfg.works blocks) (w blocks) t 0;
    heights = i.heights;
    total =
        Works.total-renew (cfg.works blocks) (w blocks) t 0
          (map block_row (rows ms ++ (sent todo ++ numbered cfg.sha256 id bs))) i.opened
        ∙ i.total;
    emptied = λ h. absurd (cc);
  }

  pub next-Whole :
      {t : Table BlockRow} {q : List (Msg BlockRec)} {id : ℕ} {bs : List BlockRecSync} {r : Bool}
      (hs : Heights) (b : BlockRecSync)
      → Whole t q [] id (b ∷ bs) r
      → Whole t q
          (Worker.block_actions cfg.sha256 cfg.first_import hs ((id + 1) % 2 ^ 64) b)
          ((id + 1) % 2 ^ 64)
          bs
          r
  unfolding numbered sent
  next-Whole {t} {q} {id} {bs} hs b i =
      let (h, e) = i.heights.0 in
      let id' = (id + 1) % 2 ^ 64 in
      record {
        opened = i.opened;
        heights = i.heights.1;
        total =
            ap
              (λ l.
                t.committed
                ++ (t.pending ++ map block_row (rows q ++ (l ++ numbered cfg.sha256 id' bs))))
              (sent-block_actions cfg.sha256 cfg.first_import hs id' b h e)
            ∙ i.total;
        emptied = i.emptied;
      }

  pub last-Whole :
      {t : Table BlockRow} {q : List (Msg BlockRec)} {todo : List Action} {id : ℕ}
      {bs : List BlockRecSync} {r : Bool}
      → Whole t q todo id bs r
      → Whole (commit true (cfg.works blocks) 0 t).1 q todo id bs true
  last-Whole {t} {q} {todo} {id} {bs} i =
      let l = map block_row (rows q ++ (sent todo ++ numbered cfg.sha256 id bs)) in
      let empty = Works.commit-pending (cfg.works blocks) (w blocks) t 0 i.opened in
      record {
        opened = Works.commit-open (cfg.works blocks) (w blocks) t 0 ∙ i.opened;
        heights = i.heights;
        total =
            rw (empty, Works.commit-committed (cfg.works blocks) (w blocks) t 0 i.opened)
              (append_assoc t.committed t.pending l)
            ∙ i.total;
        emptied = λ h. empty;
      }
