-- ===== src/Safety/Seen/Remembers.antt =====
-- What was marked stays known until it expires, whatever else the cache is asked or given, as long as
-- all keys since then fit into it.
use dingtalk_channel_sdk_go.Prelude.{
  lt→ltb, Bool-cases, length, All, Text, listed_iff, ℕ, ◌+◌, ◌≤◌, ◌<◌, ◌≡◌, refl, sym, ap, subst,
  ◌∙◌, ◌≢◌, inl, inr, Bool, true, false, Option, List, [], ◌∷◌, arith,
}
use mathlib.Core.List.{Mem}
use dingtalk_channel_sdk_go.Types.{DedupConfig}
use dingtalk_channel_sdk_go.Safety.Seen.{SeenCache, add, check_and_mark, sweep, dispose}
use dingtalk_channel_sdk_go.Safety.Seen.Invariant.{IsValid}
use dingtalk_channel_sdk_go.Safety.Seen.Views.{view, lookup-view, expiry_of}
use dingtalk_channel_sdk_go.Safety.Seen.Recency.{
  Recency, note_all, knows, is_fresh, look_all, check,
}
use dingtalk_channel_sdk_go.Safety.Seen.Refinement.{drop_entry-Yields}
use dingtalk_channel_sdk_go.Safety.Seen.Rank.{lookup_of-take}
use dingtalk_channel_sdk_go.Safety.Seen.Keeps.{
  IsMarked, longer, note_all-IsMarked, noted-IsMarked, remove-IsMarked,
}
use dingtalk_channel_sdk_go.Safety.Seen.Searches.{look_all-Searched, searched, check-IsMarked}
use dingtalk_channel_sdk_go.Safety.Seen.Checks.{has-Agrees, add_keys-Yields, check_and_mark-Agrees}
use dingtalk_channel_sdk_go.Safety.Seen.Sweeps.{sweep_keeps}
use dingtalk_channel_sdk_go.Safety.Seen.Runs.{
  Call, looks, adds, checks, sweeps, disposes, step, run, step-IsValid,
}
use dingtalk_channel_sdk_go.Safety.Seen.Answers.{any_of_listed, check_known}

-- the keys with which a call may move a mark back
unfoldable pub keys_in : Call → ℕ
keys_in (looks redis now ks) = length ks
keys_in (adds remote now ks) = length ks
keys_in (checks redis now later ks) = length ks
keys_in (sweeps now) = 0
keys_in disposes = 0

unfoldable pub keys_of : List Call → ℕ
keys_of [] = 0
keys_of (c ∷ cs) = keys_in c + keys_of cs

-- The call reads the clock no sooner than the mark was made, and before it expires.
abbrev pub IsDuring : ℕ → ℕ → Call → Type 0
IsDuring from x (looks redis now ks) = (from ≤ now) × (now < x)
IsDuring from x (adds remote now ks) = (from ≤ now) × (now < x)
IsDuring from x (checks redis now later ks) = (from ≤ now) × (now < x) × (from ≤ later)
IsDuring from x (sweeps now) = now < x
IsDuring from x disposes = Unit

-- a cache that has the mark among its first `n` entries
abbrev pub Keeps : Text → ℕ → ℕ → SeenCache → Type 0
Keeps k x n sc = IsMarked k x n (view sc.evict_list)

sweep-Keeps :
    (k : Text) (x n now : ℕ) (sc : SeenCache)
    → IsValid sc
    → now < x
    → Keeps k x n sc
    → Keeps k x n (sweep sc now)
sweep-Keeps k x n now sc h soon m =
    (sweep_keeps now (Keeps k x n)
      (λ sc' e h' found old m'. subst (IsMarked k x n) (sym (drop_entry-Yields sc' h' e found).1) (
        remove-IsMarked k x n now e.expires_at e.key (view sc'.evict_list)
          (lookup-view e.key sc'.evict_list ∙ ap expiry_of found) old soon m'))
      sc h m).1

step-Keeps :
    (k : Text) (from n : ℕ) (c : Call) (sc : SeenCache)
    → IsValid sc
    → n + keys_in c ≤ sc.cfg.max_entries
    → IsDuring from (from + sc.cfg.ttl) c
    → Keeps k (from + sc.cfg.ttl) n sc
    → Keeps k (from + sc.cfg.ttl) (n + keys_in c) (step sc c)
unfolding step keys_in add dispose
step-Keeps k from n (looks redis now ks) sc h fits (late, soon) m =
    let x = from + sc.cfg.ttl in
    let v = look_all redis sc.cfg.max_entries sc.cfg.ttl (view sc.evict_list) now ks in
    subst (IsMarked k x (n + length ks)) (sym (has-Agrees redis sc now ks h).0.1) (
      searched k x now soon n (length ks) v (
        look_all-Searched k x now soon redis sc.cfg.max_entries sc.cfg.ttl n ks (view sc.evict_list)
          fits (omega arith) m))
step-Keeps k from n (adds remote now ks) sc h fits (late, soon) m =
    let x = from + sc.cfg.ttl in
    subst (IsMarked k x (n + length ks)) (sym (add_keys-Yields remote sc (now + sc.cfg.ttl) ks h).1)
      (note_all-IsMarked k x sc.cfg.max_entries n (now + sc.cfg.ttl) ks (view sc.evict_list) fits
        (omega arith) m)
step-Keeps k from n (checks redis now later ks) sc h fits (late, soon, late') m =
    let x = from + sc.cfg.ttl in
    subst (IsMarked k x (n + length ks)) (sym (check_and_mark-Agrees redis sc now later ks h).0.1) (
      check-IsMarked k x now soon redis sc.cfg.max_entries sc.cfg.ttl later n ks
        (view sc.evict_list) fits (omega arith) (omega arith) m)
step-Keeps k from n (sweeps now) sc h fits soon m =
    let x = from + sc.cfg.ttl in
    longer k x n (n + 0) (view (sweep sc now).evict_list) (omega arith)
      (sweep-Keeps k x n now sc h soon m)
step-Keeps k from n disposes sc h fits during m =
    longer k (from + sc.cfg.ttl) n (n + 0) (view sc.evict_list) (omega arith) m

cfg-step : (c : Call) (sc : SeenCache) → IsValid sc → (step sc c).cfg ≡ sc.cfg
unfolding step add dispose
cfg-step (looks redis now ks) sc h = (has-Agrees redis sc now ks h).0.2
cfg-step (adds remote now ks) sc h = (add_keys-Yields remote sc (now + sc.cfg.ttl) ks h).2
cfg-step (checks redis now later ks) sc h = (check_and_mark-Agrees redis sc now later ks h).0.2
cfg-step (sweeps now) sc h =
    (sweep_keeps now (λ sc'. sc'.cfg ≡ sc.cfg)
      (λ sc' e h' found old same. (drop_entry-Yields sc' h' e found).2 ∙ same) sc h refl).1
cfg-step disposes sc h = refl

run-Keeps :
    (k : Text) (from limit ttl n : ℕ) (cs : List Call) (sc : SeenCache)
    → IsValid sc
    → sc.cfg.max_entries ≡ limit
    → sc.cfg.ttl ≡ ttl
    → n + keys_of cs ≤ limit
    → All (IsDuring from (from + ttl)) cs
    → Keeps k (from + ttl) n sc
    → IsValid (run sc cs)
      × ((run sc cs).cfg ≡ sc.cfg)
      × Keeps k (from + ttl) (n + keys_of cs) (run sc cs)
unfolding run keys_of
run-Keeps k from limit ttl n [] sc h room term fits during m =
    (h, refl, longer k (from + ttl) n (n + 0) (view sc.evict_list) (omega arith) m)
run-Keeps k from limit ttl n (c ∷ cs) sc h room term fits (first, during) m =
    let same = cfg-step c sc h in
    let first' : IsDuring from (from + sc.cfg.ttl) c =
      subst (λ t. IsDuring from (from + t) c) (sym term) first in
    let m' : Keeps k (from + sc.cfg.ttl) n sc = subst (λ t. Keeps k (from + t) n sc) (sym term) m in
    let kept : Keeps k (from + ttl) (n + keys_in c) (step sc c) =
      subst (λ t. Keeps k (from + t) (n + keys_in c) (step sc c)) term
        (step-Keeps k from n c sc h (omega (arith, room, fits)) first' m') in
    let (valid, config, marked) =
      run-Keeps k from limit ttl (n + keys_in c) cs (step sc c) (step-IsValid sc c h)
        (ap {A = DedupConfig} (λ cfg. cfg.max_entries) same ∙ room)
        (ap {A = DedupConfig} (λ cfg. cfg.ttl) same ∙ term) (omega (arith, fits)) during kept in
    (
      valid,
      config ∙ same,
      longer k (from + ttl) (n + keys_in c + keys_of cs) (n + (keys_in c + keys_of cs))
          (view (run (step sc c) cs).evict_list) (omega arith) marked,
    )

-- a mark that runs is known
pub known_of-Keeps :
    (k : Text) (x n t : ℕ) (sc : SeenCache)
    → k ≢ []
    → t < x
    → Keeps k x n sc
    → knows (view sc.evict_list) t k ≡ true
known_of-Keeps [] x n t sc ne soon m = absurd (ne refl)
known_of-Keeps (c ∷ k) x n t sc ne soon (y, found, late) =
    ap (λ o. is_fresh o t) (lookup_of-take n (c ∷ k) (view sc.evict_list) found)
    ∙ (unfold is_fresh in lt→ltb t y (omega arith))

-- a cache in which all keys of a list have just been noted, after some calls
pub noted_run-knows :
    (sc sc' : SeenCache) (v : Recency) (from t : ℕ) (ks : List Text) (k : Text) (cs : List Call)
    → IsValid sc'
    → sc'.cfg ≡ sc.cfg
    → view sc'.evict_list ≡ note_all sc.cfg.max_entries (from + sc.cfg.ttl) ks v
    → length ks + keys_of cs ≤ sc.cfg.max_entries
    → All (IsDuring from (from + sc.cfg.ttl)) cs
    → k ≢ []
    → Mem k ks
    → t < from + sc.cfg.ttl
    → IsValid (run sc' cs) × (knows (view (run sc' cs).evict_list) t k ≡ true)
noted_run-knows sc sc' v from t ks k cs h same noted fits during ne marked soon =
    let x = from + sc.cfg.ttl in
    let first : Keeps k x (length ks) sc' =
      subst (IsMarked k x (length ks)) (sym noted) (
        noted-IsMarked k x sc.cfg.max_entries ks v (omega arith) ne ((listed_iff k ks).1 marked)) in
    let (valid, config, kept) =
      run-Keeps k from sc.cfg.max_entries sc.cfg.ttl (length ks) cs sc' h
        (ap {A = DedupConfig} (λ cfg. cfg.max_entries) same)
        (ap {A = DedupConfig} (λ cfg. cfg.ttl) same) fits during first in
    (valid, known_of-Keeps k x (length ks + keys_of cs) t (run sc' cs) ne soon kept)

check_new :
    (redis : Option (Text → Bool)) (limit ttl : ℕ) (v : Recency) (now later : ℕ) (ks : List Text)
    → (check redis limit ttl v now later ks).1 ≡ false
    → (check redis limit ttl v now later ks).0
      ≡ note_all limit (later + ttl) ks (look_all redis limit ttl v now ks).0
unfolding check
check_new redis limit ttl v now later ks new =
    elim (Bool-cases (look_all redis limit ttl v now ks).1) [
      | inl dup ↦ let no_way : true ≡ false = rw dup at new in absurd (cc)
      | inr fresh ↦ rw fresh refl
    ]

-- In a valid cache, what was marked is a duplicate until it expires. A check found nothing and marked
-- its keys at `later`. Then any calls were made, each of which read the clock not before `later` and
-- before `later + ttl`; the keys of the check and of these calls together are no more than the cache
-- may hold. Then a check at any `t` before `later + ttl` that has one of the marked keys, which is not
-- empty, finds a duplicate, whatever the second layer answers in any of the calls.
pub check_and_mark_remembers :
    (redis redis' : Option (Text → Bool)) (sc : SeenCache) (now later t t' : ℕ) (ks js : List Text)
    (k : Text) (cs : List Call)
    → IsValid sc
    → (check_and_mark redis sc now later ks).1 ≡ false
    → length ks + keys_of cs ≤ sc.cfg.max_entries
    → All (IsDuring later (later + sc.cfg.ttl)) cs
    → k ≢ []
    → Mem k ks
    → Mem k js
    → t < later + sc.cfg.ttl
    → (check_and_mark redis' (run (check_and_mark redis sc now later ks).0 cs) t t' js).1 ≡ true
check_and_mark_remembers redis redis' sc now later t t' ks js k cs h new fits during ne marked asked
      soon =
    let (yields, same) = check_and_mark-Agrees redis sc now later ks h in
    let v = view sc.evict_list in
    let sc' = (check_and_mark redis sc now later ks).0 in
    let noted =
      yields.1 ∙ check_new redis sc.cfg.max_entries sc.cfg.ttl v now later ks (sym same ∙ new) in
    let (valid, known) =
      noted_run-knows sc sc' (look_all redis sc.cfg.max_entries sc.cfg.ttl v now ks).0 later t ks k
        cs yields.0 yields.2 noted fits during ne marked soon in
    let end = run sc' cs in
    (check_and_mark-Agrees redis' end t t' js valid).1
    ∙ check_known redis' end.cfg.max_entries end.cfg.ttl (view end.evict_list) t t' js
        (any_of_listed (knows (view end.evict_list) t) k js ((listed_iff k js).1 asked) known)
