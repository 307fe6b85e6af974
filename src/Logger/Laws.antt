-- ===== src/Logger/Laws.antt =====
-- What is in the log.
use programming_lightning_bu.Base.{
  ℕ, List, Option-cases, inl, inr, ◌≡◌, Str, str, Option, none, some, [], ◌∷◌, ◌++◌, arith, ok,
  list_eq, nat_eq,
}
use programming_lightning_bu.Base.Dict.{lookup-insert}
use programming_lightning_bu.Fs.{World, node, dir, special, file, open_append, append_file}
use programming_lightning_bu.Exec.{◌>>=◌}
use programming_lightning_bu.FilePath.{FilePath}
use programming_lightning_bu.Fs.Laws.{content}
use programming_lightning_bu.Logger.{FilesystemLogger, Record, log, log_line}

abbrev text_of : Option (List ℕ) → Str
text_of none = []
text_of (some b) = b

-- The log so far; no file is an empty one.
abbrev pub logged : FilesystemLogger → World → Str
logged l w = text_of (content (l.data_dir ++ str "logs.txt" ∷ []) w)

module _ (p : FilePath) (w : World) where
  open_append-content :
      (under : FilePath)
      → (open_append under p w).0 ≡ ok tt
      → text_of (content p (open_append under p w).1) ≡ text_of (content p w)
  unfolding open_append
  open_append-content under e = ground (arith, e, lookup-insert p p (file []) w.disk)

  append_file-content :
      (b : Str)
      → (append_file p b w).0 ≡ ok tt
      → text_of (content p (append_file p b w).1) ≡ text_of (content p w) ++ b
  unfolding append_file
  append_file-content b e = elim (Option-cases (node p w)) [
    | inl k ↦ ground (arith, e, k, lookup-insert p p (file b) w.disk)
    | inr (file old, k) ↦ ground (arith, e, k, lookup-insert p p (file (old ++ b)) w.disk)
    | inr (dir, k) ↦ absurd (ground (arith, e, k))
    | inr (special, k) ↦ absurd (ground (arith, e, k))
  ]

-- A record that is logged without a panic is one more line at the end of the log.
pub log-append :
    (l : FilesystemLogger) (now : Str) (r : Record) (w : World)
    → (log l now r w).0 ≡ ok tt
    → logged l (log l now r w).1 ≡ logged l w ++ log_line now r
unfolding log ◌>>=◌
log-append l now r w e =
    let path = l.data_dir ++ str "logs.txt" ∷ [] in
    let w' = (open_append l.data_dir path w).1 in
    ground (
      arith,
      e,
      open_append-content path w l.data_dir,
      append_file-content path w' (log_line now r),
    )
