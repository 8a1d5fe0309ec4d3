-- ===== src/Outbound/Split/Content.antt =====
-- No line is lost, changed or moved by a split.
use dingtalk_channel_sdk_go.Prelude.{
  Bool-cases, Text, ℕ, ◌≡◌, refl, sym, ap, ◌∙◌, inl, inr, true, false, Option, none, List, [], ◌∷◌,
  ◌++◌,
}
use mathlib.Core.List.{append_assoc, append-nil}
use dingtalk_channel_sdk_go.Outbound.Split.{
  Splitter, start, closing, reopening, is_nil, flush, add_line, run, chunks_of,
}
use dingtalk_channel_sdk_go.Outbound.Split.Runs.{run_keeps}

-- A chunk: the line that opens it again, lines of the text, and the line that closes it.
pub record Piece : Type 0 where
  pub opening : Option Text
  pub body : List Text
  pub ending : Option Text

unfoldable pub whole : Piece → List Text
whole c = (reopening c.opening ++ c.body) ++ closing c.ending

unfoldable pub bodies : List Piece → List Text
bodies [] = []
bodies (c ∷ cs) = c.body ++ bodies cs

unfoldable pub wholes : List Piece → List (List Text)
wholes [] = []
wholes (c ∷ cs) = whole c ∷ wholes cs

-- Each chunk reopens the code block in whose middle the one before it was closed.
abbrev pub IsChained : Option Text → List Piece → Type 0
IsChained left [] = Unit
IsChained left (c ∷ cs) = (c.opening ≡ left) × IsChained c.ending cs

bodies_snoc : (cs : List Piece) (c : Piece) → bodies (cs ++ (c ∷ [])) ≡ bodies cs ++ c.body
unfolding bodies
bodies_snoc [] c = append-nil c.body
bodies_snoc (d ∷ cs) c =
    ap (λ l. d.body ++ l) (bodies_snoc cs c) ∙ sym (append_assoc d.body (bodies cs) c.body)

wholes_snoc : (cs : List Piece) (c : Piece) → wholes (cs ++ (c ∷ [])) ≡ wholes cs ++ (whole c ∷ [])
unfolding wholes
wholes_snoc [] c = refl
wholes_snoc (d ∷ cs) c = ap (λ l. whole d ∷ l) (wholes_snoc cs c)

-- what the last chunk left open
last_ending : Option Text → List Piece → Option Text
last_ending left [] = left
last_ending left (c ∷ cs) = last_ending c.ending cs

IsChained-snoc :
    (left : Option Text) (cs : List Piece) (c : Piece)
    → IsChained left cs
    → c.opening ≡ last_ending left cs
    → IsChained left (cs ++ (c ∷ []))
unfolding last_ending
IsChained-snoc left [] c h e = (e, tt)
IsChained-snoc left (d ∷ cs) c h e = (h.0, IsChained-snoc d.ending cs c h.1 e)

last_ending_snoc :
    (left : Option Text) (cs : List Piece) (c : Piece)
    → last_ending left (cs ++ (c ∷ [])) ≡ c.ending
unfolding last_ending
last_ending_snoc left [] c = refl
last_ending_snoc left (d ∷ cs) c = last_ending_snoc d.ending cs c

-- The chunks so far, and the buffer with the lines that it was reopened with.
record IsCut (done : List Text) (st : Splitter) : Type 0 where
  pieces : List Piece
  rest : List Text
  out : st.out ≡ wholes pieces
  buffer : st.buf ≡ reopening (last_ending none pieces) ++ rest
  lines : bodies pieces ++ rest ≡ done
  chained : IsChained none pieces

start-IsCut : IsCut [] start
unfolding start wholes bodies last_ending reopening
start-IsCut = record {
  pieces = [];
  rest = [];
  out = refl;
  buffer = refl;
  lines = refl;
  chained = tt;
}

add_line-IsCut :
    (done : List Text) (st : Splitter) (n : ℕ) (line : Text)
    → IsCut done st
    → IsCut (done ++ (line ∷ [])) (add_line st n line)
unfolding add_line
add_line-IsCut done st n line h = record {
  pieces = h.pieces;
  rest = h.rest ++ (line ∷ []);
  out = h.out;
  buffer =
      ap (λ b. b ++ (line ∷ [])) h.buffer
      ∙ append_assoc (reopening (last_ending none h.pieces)) h.rest (line ∷ []);
  lines =
      sym (append_assoc (bodies h.pieces) h.rest (line ∷ [])) ∙ ap (λ b. b ++ (line ∷ [])) h.lines;
  chained = h.chained;
}

-- the piece that a flush makes of the buffer
cut : Splitter → List Piece → List Text → Piece
cut st pieces rest = record {
  opening = last_ending none pieces;
  body = rest;
  ending = st.fence_lang;
}

-- What a list of chunks shows of the lines that are done.
abbrev pub Shows : List (List Text) → List Text → List Piece → Type 0
Shows chunks done pieces = (chunks ≡ wholes pieces) × (bodies pieces ≡ done) × IsChained none pieces

flush-Shows :
    (done : List Text) (st : Splitter) (h : IsCut done st)
    → is_nil st.buf ≡ false
    → Shows (flush st).out done (h.pieces ++ (cut st h.pieces h.rest ∷ []))
unfolding cut whole
flush-Shows done st h full =
    let c = cut st h.pieces h.rest in
    unfold flush in
    rw full (
      ap (λ o. o ++ ((st.buf ++ closing st.fence_lang) ∷ [])) h.out
          ∙ (ap (λ b. wholes h.pieces ++ ((b ++ closing st.fence_lang) ∷ [])) h.buffer
              ∙ sym (wholes_snoc h.pieces c)),
      bodies_snoc h.pieces c ∙ h.lines,
      IsChained-snoc none h.pieces c h.chained refl,
    )

flush_empty : (st : Splitter) → is_nil st.buf ≡ true → flush st ≡ st
unfolding flush
flush_empty st empty = rw (empty, flush) refl

buf-flush : (st : Splitter) → is_nil st.buf ≡ false → (flush st).buf ≡ reopening st.fence_lang
unfolding flush
buf-flush st full = rw full refl

flush-IsCut : (done : List Text) (st : Splitter) → IsCut done st → IsCut done (flush st)
unfolding cut
flush-IsCut done st h = elim (Bool-cases (is_nil st.buf)) [
  | inl empty ↦ unfold flush in rw empty h
  | inr full ↦
      let c = cut st h.pieces h.rest in
      let (out, lines, chained) = flush-Shows done st h full in
      record {
        pieces = h.pieces ++ (c ∷ []);
        rest = [];
        out = out;
        buffer =
            buf-flush st full
            ∙ (sym (append-nil (reopening st.fence_lang))
                ∙ ap (λ s. reopening s ++ []) (sym (last_ending_snoc none h.pieces c)));
        lines = append-nil (bodies (h.pieces ++ (c ∷ []))) ∙ lines;
        chained = chained;
      }
]

rest_nil : (xs ys : List Text) → is_nil (xs ++ ys) ≡ true → ys ≡ []
rest_nil xs [] e = refl
rest_nil [] (y ∷ ys) e = absurd (cc)
rest_nil (x ∷ xs) (y ∷ ys) e = absurd (cc)

-- The chunks are the lines of the text, cut into pieces: in their order, each line in one piece and
-- unchanged. A piece may be closed with a fence, and then the next one starts with a fence of that
-- language, and only then; nothing else is added.
pub chunks_of-Shows :
    (limit : ℕ) (lines : List Text)
    → (pieces : List Piece) × Shows (chunks_of limit lines) lines pieces
unfolding chunks_of
chunks_of-Shows limit lines =
    let st = run limit start lines in
    let h = run_keeps IsCut flush-IsCut add_line-IsCut limit lines [] start start-IsCut in
    elim (Bool-cases (is_nil st.buf)) [
      | inr full ↦ (h.pieces ++ (cut st h.pieces h.rest ∷ []), flush-Shows lines st h full)
      | inl empty ↦
          let none_left =
            rest_nil (reopening (last_ending none h.pieces)) h.rest
              (sym (ap is_nil h.buffer) ∙ empty) in
          (
            h.pieces,
            (
              ap {A = Splitter} (λ s. s.out) (flush_empty st empty) ∙ h.out,
              sym (append-nil (bodies h.pieces))
                  ∙ (ap (λ r. bodies h.pieces ++ r) (sym none_left) ∙ h.lines),
              h.chained,
            ),
          )
    ]
