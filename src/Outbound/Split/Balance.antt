-- ===== src/Outbound/Split/Balance.antt =====
-- Code fences stay balanced in every chunk.
use dingtalk_channel_sdk_go.Prelude.{
  if◌then◌else◌, Bool-cases, All, Text, ℕ, ◌≡◌, refl, sym, ap, subst, ◌∙◌, inl, inr, true, Option,
  none, some, List, [], ◌∷◌, ◌++◌,
}
use dingtalk_channel_sdk_go.Outbound.Split.{
  Splitter, start, fence, fence_match, strip_tick, all_words, closing, reopening, is_nil, flush,
  strip_next, word_only, toggle_by, toggle, add_line, run, chunks_of,
}
use dingtalk_channel_sdk_go.Outbound.Split.Runs.{run_keeps}

-- the fence that is open after some lines, read from the start
unfoldable pub fence_after : Option Text → List Text → Option Text
fence_after state [] = state
fence_after state (l ∷ ls) = fence_after (toggle state l) ls

-- Every code block that a chunk opens by the expressions of the code, it closes.
abbrev pub IsBalanced : List Text → Type 0
IsBalanced chunk = fence_after none chunk ≡ none

abbrev pub HasWords : Option Text → Type 0
HasWords none = Unit
HasWords (some lang) = all_words lang ≡ true

fence_after-append :
    (state : Option Text) (xs ys : List Text)
    → fence_after state (xs ++ ys) ≡ fence_after (fence_after state xs) ys
unfolding fence_after
fence_after-append state [] ys = refl
fence_after-append state (x ∷ xs) ys = fence_after-append (toggle state x) xs ys

fence_match-fence : (lang : Text) → all_words lang ≡ true → fence_match (fence lang) ≡ some lang
unfolding fence_match fence strip_tick strip_next word_only
fence_match-fence lang h = rw h refl

word_only-HasWords : (o : Option Text) → HasWords (word_only o)
unfolding word_only
word_only-HasWords none = tt
word_only-HasWords (some lang) = elim (Bool-cases (all_words lang)) [
  | inl w ↦ subst (λ b. HasWords (if b then some lang else none)) (sym w) w
  | inr w ↦ subst (λ b. HasWords (if b then some lang else none)) (sym w) tt
]

toggle_by-HasWords :
    (o state : Option Text) → HasWords o → HasWords state → HasWords (toggle_by o state)
unfolding toggle_by
toggle_by-HasWords none state w h = h
toggle_by-HasWords (some lang) none w h = w
toggle_by-HasWords (some lang) (some _) w h = tt

pub toggle-HasWords :
    (state : Option Text) (line : Text) → HasWords state → HasWords (toggle state line)
unfolding toggle fence_match
toggle-HasWords state line h = toggle_by-HasWords (fence_match line) state (word_only-HasWords _) h

All-snoc :
    (chunks : List (List Text)) (chunk : List Text)
    → All IsBalanced chunks
    → IsBalanced chunk
    → All IsBalanced (chunks ++ (chunk ∷ []))
All-snoc [] chunk h e = (e, tt)
All-snoc (c ∷ cs) chunk h e = (h.0, All-snoc cs chunk h.1 e)

-- The chunks so far are balanced, and the fence of the loop is the one that the buffer leaves open.
record IsTracked (done : List Text) (st : Splitter) : Type 0 where
  balanced : All IsBalanced st.out
  tracked : fence_after none st.buf ≡ st.fence_lang
  words : HasWords st.fence_lang

pub words_nil : all_words [] ≡ true
unfolding all_words
words_nil = refl

closes :
    (state : Option Text) (buf : List Text)
    → fence_after none buf ≡ state
    → IsBalanced (buf ++ closing state)
unfolding closing fence_after toggle toggle_by
closes none buf e = fence_after-append none buf [] ∙ e
closes (some lang) buf e =
    fence_after-append none buf (fence [] ∷ [])
    ∙ (ap (λ s. toggle s (fence [])) e
        ∙ ap (λ o. toggle_by o (some lang)) (fence_match-fence [] words_nil))

reopens : (state : Option Text) → HasWords state → fence_after none (reopening state) ≡ state
unfolding reopening fence_after toggle toggle_by
reopens none h = refl
reopens (some lang) h = ap (λ o. toggle_by o none) (fence_match-fence lang h)

flush-IsTracked : (done : List Text) (st : Splitter) → IsTracked done st → IsTracked done (flush st)
flush-IsTracked done st h = elim (Bool-cases (is_nil st.buf)) [
  | inl empty ↦ unfold flush in rw empty h
  | inr full ↦
      unfold flush in
      rw full (record {
        balanced = All-snoc st.out _ h.balanced (closes st.fence_lang st.buf h.tracked);
        tracked = reopens st.fence_lang h.words;
        words = h.words;
      })
]

add_line-IsTracked :
    (done : List Text) (st : Splitter) (n : ℕ) (line : Text)
    → IsTracked done st
    → IsTracked (done ++ (line ∷ [])) (add_line st n line)
unfolding add_line fence_after
add_line-IsTracked done st n line h = record {
  balanced = h.balanced;
  tracked = fence_after-append none st.buf (line ∷ []) ∙ ap (λ s. toggle s line) h.tracked;
  words = toggle-HasWords st.fence_lang line h.words;
}

start-IsTracked : IsTracked [] start
unfolding start fence_after
start-IsTracked = record { balanced = tt; tracked = refl; words = tt }

pub chunks_of-IsBalanced : (limit : ℕ) (lines : List Text) → All IsBalanced (chunks_of limit lines)
unfolding chunks_of
chunks_of-IsBalanced limit lines =
    (flush-IsTracked lines (run limit start lines) (
      run_keeps IsTracked flush-IsTracked add_line-IsTracked limit lines [] start
        start-IsTracked)).balanced
