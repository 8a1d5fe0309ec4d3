-- ===== src/Safety/Seen/Views.antt =====
-- The view of a list of entries: keys with their expiry, nodes forgotten.
use dingtalk_channel_sdk_go.Prelude.{
  ne→not-eqb, Bool-cases, some_inj, length, take, Text, ◌==◌, ==_refl, lookup, remove, ℕ, zero, suc,
  ◌≡◌, refl, sym, ap, subst, inl, inr, Option, none, some, List, [], ◌∷◌, arith,
}
use dingtalk_channel_sdk_go.Prelude.{some_inj, ne→not-eqb}
use dingtalk_channel_sdk_go.Safety.Seen.{Element, unlink}
use dingtalk_channel_sdk_go.Safety.Seen.Entries.{
  find_key, IsDistinct, unlink_head, find_key_absent, find_key-apart,
}
use dingtalk_channel_sdk_go.Safety.Seen.Recency.{Recency}

abbrev pub view : List Element → Recency
view [] = []
view (e ∷ l) = (e.key, e.expires_at) ∷ view l

abbrev pub expiry_of : Option Element → Option ℕ
expiry_of none = none
expiry_of (some e) = some e.expires_at

pub lookup-view : (k : Text) (l : List Element) → lookup k (view l) ≡ expiry_of (find_key k l)
unfolding lookup find_key
lookup-view k [] = refl
lookup-view k (e ∷ l) = ground (arith, lookup-view k l)

pub view-take : (n : ℕ) (l : List Element) → view (take n l) ≡ take n (view l)
view-take zero l = refl
view-take (suc n) [] = refl
view-take (suc n) (e ∷ l) = ap (◌∷◌ (e.key, e.expires_at)) (view-take n l)

pub length-view : (l : List Element) → length (view l) ≡ length l
length-view [] = refl
length-view (e ∷ l) = ap suc (length-view l)

-- a key that is not in the list is not removed from the view
pub remove-view_absent :
    (k : Text) (l : List Element) → find_key k l ≡ none → remove k (view l) ≡ view l
unfolding remove find_key
remove-view_absent k [] h = refl
remove-view_absent k (e ∷ l) h = ground (arith, remove-view_absent k l)

pub remove-view :
    (l : List Element) (e : Element)
    → IsDistinct l
    → find_key e.key l ≡ some e
    → view (unlink e.node l) ≡ remove e.key (view l)
unfolding remove unlink find_key
remove-view [] e d h = refl
remove-view (x ∷ l) e d h = elim (Bool-cases (x.key == e.key)) [
  | inl hit ↦
      let same : x ≡ e = some_inj (rw hit at h) in
      subst {A = Element} (λ y. view (unlink y.node (x ∷ l)) ≡ remove y.key (view (x ∷ l))) same
        (rw (unlink_head x l d.0, ==_refl x.key)
          (sym (remove-view_absent x.key l (find_key_absent x l d.0))))
  | inr miss ↦
      let h' : find_key e.key l ≡ some e = rw miss at h in
      let ne = (find_key-apart e.key x l d.0 h').0 in
      rw (ne→not-eqb x.node e.node (λ q. ne (sym q)), miss)
        (ap (◌∷◌ (x.key, x.expires_at)) (remove-view l e d.1 h'))
]
