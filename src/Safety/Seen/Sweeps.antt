-- ===== src/Safety/Seen/Sweeps.antt =====
-- The sweeper: it takes expired entries from the back, up to the first that has not expired.
use dingtalk_channel_sdk_go.Prelude.{
  ltb, eqb_refl, ne→not-eqb, Bool-cases, Text, ◌==◌, ==_refl, ==_sym_false, lookup, ℕ, ◌≤◌, ◌≡◌,
  refl, sym, ap, subst, ◌∙◌, ◌≢◌, inl, inr, false, some, List, [], ◌∷◌, ◌++◌, arith,
}
use mathlib.Core.List.{reverse, reverse-append, reverse-reverse}
use dingtalk_channel_sdk_go.Prelude.{ne→not-eqb, ==_sym_false}
use dingtalk_channel_sdk_go.Safety.Seen.{Element, SeenCache, unlink, drop_entry, sweep_back, sweep}
use dingtalk_channel_sdk_go.Safety.Seen.Entries.{find_key, IsApart, IsDistinct}
use dingtalk_channel_sdk_go.Safety.Seen.Invariant.{IsValid}
use dingtalk_channel_sdk_go.Safety.Seen.Views.{view, lookup-view, expiry_of}
use dingtalk_channel_sdk_go.Safety.Seen.Answers.{knows-remove}
use dingtalk_channel_sdk_go.Safety.Seen.Recency.{knows, is_fresh}
use dingtalk_channel_sdk_go.Safety.Seen.Refinement.{drop_entry-Yields}

-- an entry behind a list, found by its key if all are distinct
snoc-apart :
    (l : List Element) (e x : Element)
    → IsApart x (l ++ (e ∷ []))
    → (e.node ≢ x.node) × ((e.key == x.key) ≡ false)
snoc-apart [] e x a = a.0
snoc-apart (y ∷ l) e x a = snoc-apart l e x a.1

find_key-snoc :
    (l : List Element) (e : Element)
    → IsDistinct (l ++ (e ∷ []))
    → find_key e.key (l ++ (e ∷ [])) ≡ some e
unfolding find_key
find_key-snoc [] e d = rw (==_refl e.key)
find_key-snoc (y ∷ l) e d =
    rw (==_sym_false e.key y.key (snoc-apart l e y d.0).1) (find_key-snoc l e d.1)

unlink-snoc :
    (l : List Element) (e : Element)
    → IsDistinct (l ++ (e ∷ []))
    → unlink e.node (l ++ (e ∷ [])) ≡ l
unfolding unlink
unlink-snoc [] e d = rw (eqb_refl e.node)
unlink-snoc (y ∷ l) e d =
    rw (ne→not-eqb y.node e.node (λ q. (snoc-apart l e y d.0).0 (sym q)))
      (ap (◌∷◌ y) (unlink-snoc l e d.1))

-- The caches that nobody can tell apart from now on.
abbrev pub SameFrom : ℕ → SeenCache → SeenCache → Type 0
SameFrom now sc sc' =
    (later : ℕ) (k : Text)
    → now ≤ later
    → knows (view sc'.evict_list) later k ≡ knows (view sc.evict_list) later k

-- dropping an expired entry is not seen
dropped-SameFrom :
    (now : ℕ) (sc : SeenCache) (e : Element)
    → IsValid sc
    → find_key e.key sc.evict_list ≡ some e
    → ltb now e.expires_at ≡ false
    → SameFrom now sc (drop_entry sc e)
dropped-SameFrom now sc e h found old later k le =
    let v = view sc.evict_list in
    let there : lookup e.key v ≡ some e.expires_at =
      lookup-view e.key sc.evict_list ∙ ap expiry_of found in
    let stale : ltb later e.expires_at ≡ false = ground arith in
    let forgotten : is_fresh (lookup e.key v) later ≡ false =
      ap (λ o. is_fresh o later) there ∙ (unfold is_fresh in stale) in
    ap (λ w. knows w later k) (drop_entry-Yields sc h e found).1
    ∙ knows-remove v later e.key forgotten k

-- What the loss of an expired entry keeps is kept by the sweep from the back, the list given by its
-- reverse.
module _ (now : ℕ) (P : SeenCache → Type 0)
    (keeps : (sc : SeenCache) (e : Element)
      → IsValid sc
      → find_key e.key sc.evict_list ≡ some e
      → ltb now e.expires_at ≡ false
      → P sc
      → P (drop_entry sc e)) where
  sweep_back_keeps :
      (sc : SeenCache) (r : List Element)
      → IsValid sc
      → sc.evict_list ≡ reverse r
      → P sc
      → IsValid (sweep_back now sc r) × P (sweep_back now sc r)
  unfolding sweep_back
  sweep_back_keeps sc [] h e p = (h, p)
  sweep_back_keeps sc (x ∷ older) h e p =
      let ends = e ∙ reverse-append (x ∷ []) older in
      let distinct = subst IsDistinct ends h.linked.distinct in
      let found : find_key x.key sc.evict_list ≡ some x =
        ap (find_key x.key) ends ∙ find_key-snoc (reverse older) x distinct in
      let left : (drop_entry sc x).evict_list ≡ reverse older =
        unfold drop_entry in ap (unlink x.node) ends ∙ unlink-snoc (reverse older) x distinct in
      elim (Bool-cases (ltb now x.expires_at)) [
        | inl live ↦ rw live (h, p)
        | inr old ↦ rw old (
            sweep_back_keeps (drop_entry sc x) older (drop_entry-Yields sc h x found).0 left
              (keeps sc x h found old p))
      ]

  pub sweep_keeps : (sc : SeenCache) → IsValid sc → P sc → IsValid (sweep sc now) × P (sweep sc now)
  unfolding sweep
  sweep_keeps sc h p =
      sweep_back_keeps sc (reverse sc.evict_list) h (sym (reverse-reverse sc.evict_list)) p

-- A sweep at `now` keeps the invariant, and no question asked at `now` or later gets another answer.
pub sweep_unseen :
    (sc : SeenCache) (now : ℕ)
    → IsValid sc
    → IsValid (sweep sc now) × SameFrom now sc (sweep sc now)
sweep_unseen sc now h =
    sweep_keeps now (SameFrom now sc)
      (λ sc' e h' found old same later k le.
        dropped-SameFrom now sc' e h' found old later k le ∙ same later k le)
      sc h (λ later k le. refl)
