-- ===== src/Safety/Seen/Entries.antt =====
-- The list of entries in order of use, with its nodes and keys distinct.
use dingtalk_channel_sdk_go.Prelude.{
  ℕ, ◌+◌, ◌<◌, ◌≡◌, refl, sym, ap, subst, ◌∙◌, ◌≢◌, inl, inr, false, Option, none, some, List, [],
  ◌∷◌, arith, eqb, if◌then◌else◌, eqb_refl, Bool-cases, length, All, Text, ◌==◌, eq_of_==, ==_iff,
}
use dingtalk_channel_sdk_go.Prelude.{
  suc, some_inj, ne→not-eqb, last_of, take, ==_refl, ==_sym_false,
}
use dingtalk_channel_sdk_go.Safety.Seen.{Element, deref, unlink}

-- The first entry of a key, found without the map.
unfoldable pub find_key : Text → List Element → Option Element
find_key k [] = none
find_key k (e ∷ l) = if e.key == k then some e else find_key k l

-- The entry shares neither its node nor its key with the list.
abbrev pub IsApart : Element → List Element → Type 0
IsApart e l = All (λ x. (x.node ≢ e.node) × ((x.key == e.key) ≡ false)) l

abbrev pub IsDistinct : List Element → Type 0
IsDistinct [] = Unit
IsDistinct (e ∷ l) = IsApart e l × IsDistinct l

abbrev pub node_of : Option Element → Option ℕ
node_of none = none
node_of (some e) = some e.node

abbrev pub Below : ℕ → List Element → Type 0
Below n l = All (λ e. e.node < n) l

pub find_key-key : (k : Text) (l : List Element) {e : Element} → find_key k l ≡ some e → e.key ≡ k
unfolding find_key
find_key-key k [] h = absurd (cc)
find_key-key k (x ∷ l) {e} h = elim (Bool-cases (x.key == k)) [
  | inl hit ↦
      let same : some x ≡ some e = rw hit at h in
      ap (λ (y : Element). y.key) (sym (some_inj same)) ∙ eq_of_== x.key k hit
  | inr miss ↦ find_key-key k l (rw miss at h)
]

-- an entry that is found is apart from one that is apart from the list
pub find_key-apart :
    (k : Text) (e : Element) (l : List Element) {x : Element}
    → IsApart e l
    → find_key k l ≡ some x
    → (x.node ≢ e.node) × ((x.key == e.key) ≡ false)
unfolding find_key
find_key-apart k e [] a h = absurd (cc)
find_key-apart k e (y ∷ l) {x} a h = elim (Bool-cases (y.key == k)) [
  | inl hit ↦
      let same : some y ≡ some x = rw hit at h in
      subst {A = Element} (λ z. (z.node ≢ e.node) × ((z.key == e.key) ≡ false)) (some_inj same) a.0
  | inr miss ↦ find_key-apart k e l a.1 (rw miss at h)
]

-- the pointer of an entry that is found leads back to it
pub deref-find_key :
    (k : Text) (l : List Element) (e : Element)
    → IsDistinct l
    → find_key k l ≡ some e
    → deref e.node l ≡ some e
unfolding find_key deref
deref-find_key k [] e d h = absurd (cc)
deref-find_key k (x ∷ l) e d h = elim (Bool-cases (x.key == k)) [
  | inl hit ↦ ground arith
  | inr miss ↦
      let h' : find_key k l ≡ some e = rw miss at h in
      ground (arith, deref-find_key k l e d.1 h', find_key-apart k x l d.0 h')
]

pub IsApart-unlink : (n : ℕ) (e : Element) (l : List Element) → IsApart e l → IsApart e (unlink n l)
unfolding unlink
IsApart-unlink n e [] a = tt
IsApart-unlink n e (x ∷ l) a = elim (Bool-cases (eqb x.node n)) [
  | inl hit ↦ rw hit (IsApart-unlink n e l a.1)
  | inr miss ↦ rw miss (a.0, IsApart-unlink n e l a.1)
]

pub unlink-IsDistinct : (n : ℕ) (l : List Element) → IsDistinct l → IsDistinct (unlink n l)
unfolding unlink
unlink-IsDistinct n [] d = tt
unlink-IsDistinct n (x ∷ l) d = elim (Bool-cases (eqb x.node n)) [
  | inl hit ↦ rw hit (unlink-IsDistinct n l d.1)
  | inr miss ↦ rw miss (IsApart-unlink n x l d.0, unlink-IsDistinct n l d.1)
]

pub unlink-Below : (n m : ℕ) (l : List Element) → Below m l → Below m (unlink n l)
unfolding unlink
unlink-Below n m [] b = tt
unlink-Below n m (x ∷ l) b = elim (Bool-cases (eqb x.node n)) [
  | inl hit ↦ rw hit (unlink-Below n m l b.1)
  | inr miss ↦ rw miss (b.0, unlink-Below n m l b.1)
]

-- nothing to unlink
pub unlink_absent : (e : Element) (l : List Element) → IsApart e l → unlink e.node l ≡ l
unfolding unlink
unlink_absent e [] a = refl
unlink_absent e (x ∷ l) a = ground (arith, unlink_absent e l a.1)

pub unlink_head : (e : Element) (l : List Element) → IsApart e l → unlink e.node (e ∷ l) ≡ l
unfolding unlink
unlink_head e l a = rw (eqb_refl e.node) (unlink_absent e l a)

-- an entry that is apart from the list is not found in it
pub find_key_absent : (e : Element) (l : List Element) → IsApart e l → find_key e.key l ≡ none
unfolding find_key
find_key_absent e [] a = refl
find_key_absent e (x ∷ l) a = rw a.0.1 (find_key_absent e l a.1)

find_key-unlink_head :
    (k : Text) (e : Element) (l : List Element)
    → IsApart e l
    → find_key k (unlink e.node (e ∷ l)) ≡ (if e.key == k then none else find_key k (e ∷ l))
find_key-unlink_head k e l a = rw (unlink_head e l a) (elim (Bool-cases (e.key == k)) [
  | inl hit ↦
      rw hit (subst (λ j. find_key j l ≡ none) (eq_of_== e.key k hit) (find_key_absent e l a))
  | inr miss ↦ rw miss (unfold find_key in rw miss refl)
])

-- after an entry is unlinked its key is not found, and other keys are as they were
pub find_key-unlink :
    (k : Text) (l : List Element) (e : Element)
    → IsDistinct l
    → find_key e.key l ≡ some e
    → find_key k (unlink e.node l) ≡ (if e.key == k then none else find_key k l)
unfolding find_key unlink
find_key-unlink k [] e d h = absurd (cc)
find_key-unlink k (x ∷ l) e d h = elim (Bool-cases (x.key == e.key)) [
  | inl hit ↦
      let same : x ≡ e = some_inj (rw hit at h) in
      subst {A = Element}
        (λ y.
          find_key k (unlink y.node (x ∷ l)) ≡ (if y.key == k then none else find_key k (x ∷ l)))
        same (find_key-unlink_head k x l d.0)
  | inr miss ↦
      let h' : find_key e.key l ≡ some e = rw miss at h in
      ground (
        arith,
        find_key-unlink k l e d.1 h',
        find_key-apart e.key x l d.0 h',
        ==_iff x.key k,
        ==_iff e.key k,
        ==_iff x.key e.key,
      )
]

-- an entry that was found is apart from the rest of the list
pub unlink-IsApart :
    (l : List Element) (e : Element)
    → IsDistinct l
    → find_key e.key l ≡ some e
    → IsApart e (unlink e.node l)
unfolding find_key unlink
unlink-IsApart [] e d h = tt
unlink-IsApart (x ∷ l) e d h = elim (Bool-cases (x.key == e.key)) [
  | inl hit ↦
      let same : x ≡ e = some_inj (rw hit at h) in
      subst {A = Element} (λ y. IsApart y (unlink y.node (x ∷ l))) same
        (rw (unlink_head x l d.0) d.0)
  | inr miss ↦
      let h' : find_key e.key l ≡ some e = rw miss at h in
      let ne = (find_key-apart e.key x l d.0 h').0 in
      rw (ne→not-eqb x.node e.node (λ q. ne (sym q)))
        ((λ q. ne (sym q), miss), unlink-IsApart l e d.1 h')
]

-- unlinking an entry that is there makes the list one shorter
pub length-unlink :
    (l : List Element) (e : Element)
    → IsDistinct l
    → find_key e.key l ≡ some e
    → length (unlink e.node l) + 1 ≡ length l
unfolding find_key unlink
length-unlink [] e d h = absurd (cc)
length-unlink (x ∷ l) e d h = elim (Bool-cases (x.key == e.key)) [
  | inl hit ↦
      let same : x ≡ e = some_inj (rw hit at h) in
      subst {A = Element} (λ y. length (unlink y.node (x ∷ l)) + 1 ≡ length (x ∷ l)) same
        (rw (unlink_head x l d.0) (omega arith))
  | inr miss ↦
      let h' : find_key e.key l ≡ some e = rw miss at h in
      let ne = (find_key-apart e.key x l d.0 h').0 in
      rw (ne→not-eqb x.node e.node (λ q. ne (sym q))) (omega (arith, length-unlink l e d.1 h'))
]

-- every entry that is found satisfies what all entries do
pub All-find_key :
    (P : Element → Type 0) (k : Text) (l : List Element) {e : Element}
    → All P l
    → find_key k l ≡ some e
    → P e
unfolding find_key
All-find_key P k [] a h = absurd (cc)
All-find_key P k (x ∷ l) a h = elim (Bool-cases (x.key == k)) [
  | inl hit ↦ subst {A = Element} P (some_inj (rw hit at h)) a.0
  | inr miss ↦ All-find_key P k l a.1 (rw miss at h)
]

pub Below-suc : (n : ℕ) (l : List Element) → Below n l → Below (suc n) l
Below-suc n [] b = tt
Below-suc n (x ∷ l) b = (omega arith, Below-suc n l b.1)

-- an entry with a new node and a key that is not in the list
pub new-IsApart :
    (e : Element) (l : List Element) → Below e.node l → find_key e.key l ≡ none → IsApart e l
unfolding find_key
new-IsApart e [] b h = tt
new-IsApart e (x ∷ l) b h = elim (Bool-cases (x.key == e.key)) [
  | inl hit ↦ let no_way : some x ≡ none = rw hit at h in absurd (cc)
  | inr miss ↦ ((omega arith, miss), new-IsApart e l b.1 (rw miss at h))
]

-- The last entry of a list is found by its key, and unlinking it cuts the list by one.
pub All-last_of :
    (P : Element → Type 0) (e : Element) (l : List Element) → All P (e ∷ l) → P (last_of e l)
All-last_of P e [] a = a.0
All-last_of P e (y ∷ l) a = All-last_of P y l a.1

pub find_key-last_of :
    (e : Element) (l : List Element)
    → IsDistinct (e ∷ l)
    → find_key (last_of e l).key (e ∷ l) ≡ some (last_of e l)
unfolding find_key
find_key-last_of e [] d = rw (==_refl e.key)
find_key-last_of e (y ∷ l) d =
    let apart = All-last_of (λ x. (x.node ≢ e.node) × ((x.key == e.key) ≡ false)) y l d.0 in
    let differ : (e.key == (last_of y l).key) ≡ false =
      ==_sym_false (last_of y l).key e.key apart.1 in
    rw differ (find_key-last_of y l d.1)

pub unlink-last_of :
    (e : Element) (l : List Element)
    → IsDistinct (e ∷ l)
    → unlink (last_of e l).node (e ∷ l) ≡ take (length l) (e ∷ l)
unfolding unlink
unlink-last_of e [] d = rw (eqb_refl e.node)
unlink-last_of e (y ∷ l) d =
    let apart = All-last_of (λ x. (x.node ≢ e.node) × ((x.key == e.key) ≡ false)) y l d.0 in
    rw (ne→not-eqb e.node (last_of y l).node (λ q. apart.0 (sym q)))
      (ap (◌∷◌ e) (unlink-last_of y l d.1))
