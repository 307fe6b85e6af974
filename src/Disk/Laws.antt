-- ===== src/Disk/Laws.antt =====
-- The file of the channel peers.
use mathlib.Core.List.{append_assoc}
use programming_lightning_bu.Base.{
  inl, inr, ◌⊎◌, Option-cases, ◌≡◌, refl, sym, ap, ◌∙◌, Str, Option, some, List, [], ◌∷◌, ◌++◌, All,
  arith, list_eq, nat_eq, eq_refl, Outcome, ok, err, panic, if◌then◌else◌, ◌==◌, Option-cases, ◌⊎◌,
  inl, inr,
}
use programming_lightning_bu.Base.Dict.{Dict, lookup, insert, lookup-insert}
use programming_lightning_bu.Exec.{IoError}
use programming_lightning_bu.FilePath.{FilePath}
use programming_lightning_bu.Cli.PeerInfo.{parse_peer_info}
use programming_lightning_bu.Fs.{
  World, node, dir, file, exists, open_read, read_file, open_append, append_file,
}
use programming_lightning_bu.Text.{lines, split, strip_cr, end_lines}
use programming_lightning_bu.Text.SplitLaws.{Lacks, split-append, split-cases}
use programming_lightning_bu.Payments.{Bytes}
use programming_lightning_bu.Disk.{persist_channel_peer, read_channel_peer_data}
use programming_lightning_bu.Disk.Lines.{collect_peers}

-- A text that `BufRead::lines` gives back as it is.
abbrev pub IsLine : Str → Type 0
IsLine l = Lacks 10 l × (strip_cr l ≡ l)

-- A file with these lines.
unfoldable pub unlines : List Str → Bytes
unlines [] = []
unlines (l ∷ ls) = l ++ 10 ∷ unlines ls

end_lines-cons :
    (l : Str) (s : Bytes) → end_lines (l ∷ split 10 s) ≡ strip_cr l ∷ end_lines (split 10 s)
unfolding end_lines
end_lines-cons l s = let (p, ps, e, _, _) = split-cases 10 s in rw e refl

lines-unlines : (ls : List Str) → All IsLine ls → lines (unlines ls) ≡ ls
unfolding lines unlines end_lines split
lines-unlines [] h = refl
lines-unlines (l ∷ ls) h =
    let e = end_lines-cons l (unlines ls) in
    grind (arith, split-append 10 l (unlines ls) h.0.0, e, h.0.1, lines-unlines ls h.1)

unlines-snoc : (ls : List Str) (l : Str) → unlines (ls ++ l ∷ []) ≡ unlines ls ++ (l ++ 10 ∷ [])
unfolding unlines
unlines-snoc [] l = refl
unlines-snoc (k ∷ ls) l =
    ap (λ t. k ++ 10 ∷ t) (unlines-snoc ls l)
    ∙ sym (append_assoc k (10 ∷ unlines ls) (l ++ 10 ∷ []))

All-init : (ls : List Str) (l : Str) → All IsLine (ls ++ l ∷ []) → All IsLine ls
All-init [] l h = tt
All-init (k ∷ ls) l h = (h.0, All-init ls l h.1)

-- What is found in what was read.
abbrev pub map_ok : {A B : Type 0} → (A → B) → Outcome IoError A → Outcome IoError B
map_ok f (ok a) = ok (f a)
map_ok f (err e) = err e
map_ok f panic = panic

persisted :
    (under path : FilePath) (b : Bytes) (peer_info : Str) (w : World)
    → w.faults ≡ []
    → node under w ≡ some dir
    → node path w ≡ some (file b)
    → ((persist_channel_peer under path peer_info w).1.faults ≡ [])
      × (node path (persist_channel_peer under path peer_info w).1
          ≡ some (file (b ++ (peer_info ++ 10 ∷ []))))
unfolding persist_channel_peer open_append append_file
persisted under path b peer_info w calm under_is path_is =
    let full = file (b ++ (peer_info ++ 10 ∷ [])) in
    ground (arith, calm, under_is, path_is, lookup-insert path path full w.disk, eq_refl path)

read_lines :
    (from_utf8 : Bytes → Option Str) (from_slice : Bytes → Option Bytes)
    (to_socket_addrs : Str → Option (List Bytes)) (path : FilePath) (b : Bytes) (w : World)
    → w.faults ≡ []
    → node path w ≡ some (file b)
    → (read_channel_peer_data from_utf8 from_slice to_socket_addrs path w).0
      ≡ collect_peers from_utf8 from_slice to_socket_addrs (lines b) []
unfolding read_channel_peer_data exists open_read read_file
read_lines utf8 key addrs path b w calm path_is = ground (arith, calm, path_is)

peer-cases :
    (o : Outcome IoError (Bytes × Bytes))
    → ((k : Bytes) × (a : Bytes) × (o ≡ ok (k, a))) ⊎ ((o ≡ panic) ⊎ ((x : IoError) × (o ≡ err x)))
peer-cases (ok (k, a)) = inl (k, a, refl)
peer-cases panic = inr (inl refl)
peer-cases (err x) = inr (inr (x, refl))

collect_peers-snoc :
    (from_utf8 : Bytes → Option Str) (from_slice : Bytes → Option Bytes)
    (to_socket_addrs : Str → Option (List Bytes)) (ls : List Str) (peer_info text : Str)
    (pubkey addr : Bytes) (known peers : Dict Bytes Bytes)
    → collect_peers from_utf8 from_slice to_socket_addrs ls known ≡ ok peers
    → from_utf8 peer_info ≡ some text
    → parse_peer_info from_slice to_socket_addrs text ≡ ok (pubkey, addr)
    → collect_peers from_utf8 from_slice to_socket_addrs (ls ++ peer_info ∷ []) known
      ≡ ok (insert pubkey addr peers)
unfolding collect_peers
collect_peers-snoc utf8 key addrs [] peer_info text pubkey addr known peers e read parsed =
    ground (arith, e, read, parsed)
collect_peers-snoc utf8 key addrs (l ∷ ls) peer_info text pubkey addr known peers e read parsed =
    elim (Option-cases (utf8 l)) [
      | inl q ↦ ground (arith, e, q)
      | inr (t, q) ↦ elim (peer-cases (parse_peer_info key addrs t)) [
        | inl (k, a, r) ↦
            let ih =
              collect_peers-snoc utf8 key addrs ls peer_info text pubkey addr (insert k a known)
                peers (ground (arith, q, r, e)) read parsed in
            ground (arith, q, r, ih)
        | inr (inl r) ↦ ground (arith, q, r, e)
        | inr (inr (x, r)) ↦ ground (arith, q, r, e)
      ]
    ]

-- Without a failing call, let the file of the peers hold lines that the reader reads as `peers`, and
-- let a peer be appended whose text is one line of UTF-8 that parses as a key and an address. Then
-- the reader returns, finds the address for that key, and for every other key what it found before.
pub read-persist :
    (from_utf8 : Bytes → Option Str) (from_slice : Bytes → Option Bytes)
    (to_socket_addrs : Str → Option (List Bytes)) (under path : FilePath) (ls : List Str)
    (peer_info text : Str) (pubkey addr j : Bytes) (peers : Dict Bytes Bytes) (w : World)
    → w.faults ≡ []
    → node under w ≡ some dir
    → node path w ≡ some (file (unlines ls))
    → All IsLine (ls ++ peer_info ∷ [])
    → (read_channel_peer_data from_utf8 from_slice to_socket_addrs path w).0 ≡ ok peers
    → from_utf8 peer_info ≡ some text
    → parse_peer_info from_slice to_socket_addrs text ≡ ok (pubkey, addr)
    → map_ok
        (lookup j)
        (read_channel_peer_data from_utf8 from_slice to_socket_addrs path
          (persist_channel_peer under path peer_info w).1).0
      ≡ ok (if pubkey == j then some addr else lookup j peers)
read-persist utf8 key addrs under path ls peer_info text pubkey addr j peers w calm under_is path_is
      good before utf8_text parsed =
    let (calm', holds) = persisted under path (unlines ls) peer_info w calm under_is path_is in
    let w' = (persist_channel_peer under path peer_info w).1 in
    let all_lines = ls ++ peer_info ∷ [] in
    let known =
      sym (
        ap (λ ts. collect_peers utf8 key addrs ts [])
          (lines-unlines ls (All-init ls peer_info good)))
      ∙ sym (read_lines utf8 key addrs path (unlines ls) w calm path_is)
      ∙ before in
    ap (map_ok (lookup j)) (
      read_lines utf8 key addrs path (unlines all_lines) w' calm'
        (holds ∙ ap (λ b. some (file b)) (sym (unlines-snoc ls peer_info)))
      ∙ ap (λ ts. collect_peers utf8 key addrs ts []) (lines-unlines all_lines good)
      ∙ collect_peers-snoc utf8 key addrs ls peer_info text pubkey addr [] peers known utf8_text
          parsed)
    ∙ ap ok (lookup-insert pubkey j addr peers)
