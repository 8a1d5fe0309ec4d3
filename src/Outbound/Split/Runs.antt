-- ===== src/Outbound/Split/Runs.antt =====
-- What every step of the splitter keeps, its loop keeps.
use dingtalk_channel_sdk_go.Prelude.{Bool-cases, Text, ℕ, sym, subst, inl, inr, List, [], ◌∷◌, ◌++◌}
use mathlib.Core.List.{append_assoc, append-nil}
use dingtalk_channel_sdk_go.Outbound.Split.{Splitter, flush, add_line, must_flush, step, run}

-- `holds done st`: a property of the lines that are done and the state
module _ (holds : List Text → Splitter → Type 0)
    (flush_keeps : (done : List Text) (st : Splitter) → holds done st → holds done (flush st))
    (add_keeps : (done : List Text) (st : Splitter) (n : ℕ) (line : Text)
      → holds done st
      → holds (done ++ (line ∷ [])) (add_line st n line)) where
  step_keeps :
      (limit : ℕ) (done : List Text) (st : Splitter) (line : Text)
      → holds done st
      → holds (done ++ (line ∷ [])) (step limit st line)
  unfolding step
  step_keeps limit done st line h = elim (Bool-cases (must_flush limit st line)) [
    | inl full ↦ rw full (add_keeps done (flush st) _ line (flush_keeps done st h))
    | inr room ↦ rw room (add_keeps done st _ line h)
  ]

  pub run_keeps :
      (limit : ℕ) (lines done : List Text) (st : Splitter)
      → holds done st
      → holds (done ++ lines) (run limit st lines)
  unfolding run
  run_keeps limit [] done st h = subst (λ l. holds l st) (sym (append-nil done)) h
  run_keeps limit (l ∷ ls) done st h =
      subst (λ d. holds d (run limit (step limit st l) ls)) (append_assoc done (l ∷ []) ls)
        (run_keeps limit ls (done ++ (l ∷ [])) (step limit st l) (step_keeps limit done st l h))
