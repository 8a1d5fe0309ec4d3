-- ===== src/Safety/Seen/Searches.antt =====
-- How far a search, or a check, moves a mark back.
use dingtalk_channel_sdk_go.Prelude.{
  ltb, if◌then◌else◌, Bool-cases, Option-cases, length, Text, is_empty, lookup, remove, ℕ, suc, ◌+◌,
  ◌≤◌, ◌<◌, inl, inr, Bool, true, false, not, ◌&&◌, Option, none, some, List, [], ◌∷◌, arith,
}
use dingtalk_channel_sdk_go.Safety.Seen.Recency.{Recency, note, look, look_remote, look_all, check}
use dingtalk_channel_sdk_go.Safety.Seen.Keeps.{
  IsMarked, longer, note-IsMarked, note_all-IsMarked, remove-IsMarked, moved-IsMarked,
}
use dingtalk_channel_sdk_go.Safety.Seen.Lookups.{look_lem}

-- a search that finds something may move the mark, one that does not leaves it where it is
abbrev pub Searched : Text → ℕ → ℕ → ℕ → Recency × Bool → Type 0
Searched k x n m r = IsMarked k x (if r.1 then n + m else n) r.0

module _ (k : Text) (x now : ℕ) (soon : now < x) where
  more : (n m : ℕ) (r : Recency × Bool) → Searched k x n m r → Searched k x n (suc m) r
  more n m (w, true) h = longer k x (n + m) (n + suc m) w (omega arith) h
  more n m (w, false) h = h

  look-Searched :
      (n : ℕ) (ks : List Text) (v : Recency)
      → IsMarked k x n v
      → Searched k x n (length ks) (look v now ks)
  unfolding look
  look-Searched n [] v h = h
  look-Searched n ([] ∷ ks) v h = more n (length ks) (look v now ks) (look-Searched n ks v h)
  look-Searched n ((c ∷ j) ∷ ks) v h = elim (Option-cases (lookup (c ∷ j) v)) [
    | inl miss ↦
        rw (look_lem v now (c ∷ j) ks miss)
          (more n (length ks) (look v now ks) (look-Searched n ks v h))
    | inr (z, hit) ↦ rw (look_lem v now (c ∷ j) ks hit) (elim (Bool-cases (ltb now z)) [
      | inl live ↦ rw live (
          longer k x (suc n) (n + suc (length ks)) ((c ∷ j, z) ∷ remove (c ∷ j) v) (omega arith)
            (moved-IsMarked k x n z (c ∷ j) v hit h))
      | inr old ↦ rw old (
          more n (length ks) (look (remove (c ∷ j) v) now ks) (
            look-Searched n ks (remove (c ∷ j) v)
              (remove-IsMarked k x n now z (c ∷ j) v hit old soon h)))
    ])
  ]

  remote-Searched :
      (exists : Text → Bool) (limit n z : ℕ) (ks : List Text) (v : Recency)
      → n + length ks ≤ limit
      → x ≤ z
      → IsMarked k x n v
      → Searched k x n (length ks) (look_remote exists limit z v ks)
  unfolding look_remote
  remote-Searched exists limit n z [] v h le m = m
  remote-Searched exists limit n z (j ∷ ks) v h le m =
      elim (Bool-cases (not (is_empty j) && exists j)) [
        | inl hit ↦ rw hit (
            longer k x (suc n) (n + suc (length ks)) (note limit j z v) (omega arith)
              (note-IsMarked k x limit n j z v (omega arith) le m))
        | inr miss ↦ rw miss (
            more n (length ks) (look_remote exists limit z v ks)
              (remote-Searched exists limit n z ks v (omega arith) le m))
      ]

  pub look_all-Searched :
      (redis : Option (Text → Bool)) (limit ttl n : ℕ) (ks : List Text) (v : Recency)
      → n + length ks ≤ limit
      → x ≤ now + ttl
      → IsMarked k x n v
      → Searched k x n (length ks) (look_all redis limit ttl v now ks)
  unfolding look_all
  look_all-Searched redis limit ttl n ks v h le m =
      let found = look-Searched n ks v m in
      elim (Bool-cases (look v now ks).1) [
        | inl hit ↦ rw hit (rw hit at found)
        | inr miss ↦ rw miss (second redis (rw miss at found))
      ]
    where
      second :
          (redis : Option (Text → Bool))
          → IsMarked k x n (look v now ks).0
          → Searched k x n (length ks) (elim redis [
            | none ↦ ((look v now ks).0, false)
            | some exists ↦ look_remote exists limit (now + ttl) (look v now ks).0 ks
          ])
      second none m' = m'
      second (some exists) m' =
          remote-Searched exists limit n (now + ttl) ks (look v now ks).0 h le m'

  -- however a search ends
  pub searched : (n m : ℕ) (r : Recency × Bool) → Searched k x n m r → IsMarked k x (n + m) r.0
  searched n m (w, true) h = h
  searched n m (w, false) h = longer k x n (n + m) w (omega arith) h

  pub check-IsMarked :
      (redis : Option (Text → Bool)) (limit ttl later n : ℕ) (ks : List Text) (v : Recency)
      → n + length ks ≤ limit
      → x ≤ now + ttl
      → x ≤ later + ttl
      → IsMarked k x n v
      → IsMarked k x (n + length ks) (check redis limit ttl v now later ks).0
  unfolding check
  check-IsMarked redis limit ttl later n ks v h le le' m =
      let found = look_all-Searched redis limit ttl n ks v h le m in
      elim (Bool-cases (look_all redis limit ttl v now ks).1) [
        | inl dup ↦ rw dup (rw dup at found)
        | inr new ↦ rw new (
            note_all-IsMarked k x limit n (later + ttl) ks (look_all redis limit ttl v now ks).0 h
              le' (rw new at found))
      ]
