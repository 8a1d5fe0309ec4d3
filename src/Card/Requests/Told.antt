-- ===== src/Card/Requests/Told.antt =====
-- What the user gets to see when a card is finished.
use dingtalk_channel_sdk_go.Prelude.{
  ltb, if◌then◌else◌, Bool-cases, is_some, length, Text, is_empty, runes, IsUtf8, string_of-cut,
  ◌≡◌, refl, sym, ap, ◌∙◌, ◌≢◌, inl, inr, Bool, true, false, not, ◌||◌, Option, none, some, List,
  [], ◌∷◌, ◌++◌,
}
use mathlib.Core.List.{Mem, mem-cons, mem-append_left, mem-append_right, append-nil}
use mathlib.Core.Logic.Or
use dingtalk_channel_sdk_go.Card.Streamer.{
  CardInstance, finished, Action, puts, streams, falls_back, delivers_rest, CardStreamer,
  CardConfig, Fault, card_max_content,
}
use dingtalk_channel_sdk_go.Card.Requests.{
  Answers, Done, done, fault_of, try_fallback, gap_fails, send_frame, start_inputing, truncate,
  update_on, update, close_card, after_frame, finish_requests, overflow_remainder, is_blank,
  stream_body,
}

-- the content and what does not fit into the frame
truncate-append :
    (content : Text) → IsUtf8 content → truncate content ++ overflow_remainder content ≡ content
unfolding truncate overflow_remainder
truncate-append content utf8 =
    let rs = runes content in
    elim (Bool-cases (ltb card_max_content (length rs))) [
      | inl long ↦ rw long (string_of-cut card_max_content rs ∙ utf8)
      | inr short ↦ rw short (append-nil content)
    ]

fault_of-none : (ok : Bool) → fault_of ok ≡ none → ok ≡ true
fault_of-none true e = refl
fault_of-none false e = absurd (cc)

fault_of-some : (ok : Bool) → fault_of ok ≢ none → ok ≡ false
fault_of-some true e = absurd (e refl)
fault_of-some false e = refl

if-mem :
    (b : Bool) (x : Action) (xs : List Action) → b ≡ false → Mem x xs → Mem x (if b then [] else xs)
if-mem true x xs e h = absurd (cc)
if-mem false x xs e h = h

choose_left : (P : Done → Type 0) (b : Bool) (x y : Done) → b ≡ true → P x → P (if b then x else y)
choose_left P true x y e h = h
choose_left P false x y e h = absurd (cc)

choose_right :
    (P : Done → Type 0) (b : Bool) (x y : Done) → b ≡ false → P y → P (if b then x else y)
choose_right P true x y e h = absurd (cc)
choose_right P false x y e h = h

try_fallback-sent :
    (cfg : CardConfig) (content : Text) (ok : Bool)
    → cfg.has_fallback ≡ true
    → is_blank content ≡ false
    → (try_fallback cfg content ok).1 ≡ falls_back content ok ∷ []
try_fallback-sent cfg content ok has some_text = unfold try_fallback in rw (has, some_text) refl

-- the final frame with the content has been accepted, if there is no fault
abbrev IsFramed : CardConfig → Text → Done → Type 0
IsFramed cfg content d =
    d.fault ≡ none → Mem (streams (cfg.norm (truncate content)) true true) d.sent

send_frame-IsFramed :
    (cfg : CardConfig) (content : Text) (a : Answers) (s : CardStreamer)
    → IsFramed cfg content (send_frame cfg (truncate content) true a s)
unfolding send_frame done stream_body
send_frame-IsFramed cfg content a s e =
    mem-cons.1
      (Or.inl (ap (streams (cfg.norm (truncate content)) true) (sym (fault_of-none a.frame_ok e))))

if-IsFramed :
    (cfg : CardConfig) (content : Text) (b : Bool) (x y : Done)
    → IsFramed cfg content x
    → IsFramed cfg content y
    → IsFramed cfg content (if b then x else y)
if-IsFramed cfg content true x y hx hy = hx
if-IsFramed cfg content false x y hx hy = hy

start_inputing-IsFramed :
    (cfg : CardConfig) (content : Text) (a : Answers) (s : CardStreamer)
    → IsFramed cfg content (start_inputing cfg (truncate content) true a s)
unfolding start_inputing done
start_inputing-IsFramed cfg content a s =
    let started = record s { card = some (record { inputing_started = true }) } in
    if-IsFramed cfg content a.inputing_ok _ _
      (λ e. mem-cons.1 (Or.inr (send_frame-IsFramed cfg content a started e))) (λ e. absurd (cc))

update_on-IsFramed :
    (cfg : CardConfig) (content : Text) (a : Answers) (s : CardStreamer)
    (card : Option CardInstance)
    → IsFramed cfg content (update_on cfg content true a s card)
unfolding update_on done
update_on-IsFramed cfg content a s none = λ e. absurd (cc)
update_on-IsFramed cfg content a s (some card) =
    if-IsFramed cfg content (gap_fails s true a) _ _ (λ e. absurd (cc))
      (if-IsFramed cfg content card.inputing_started _ _ (send_frame-IsFramed cfg content a s)
        (start_inputing-IsFramed cfg content a s))

-- What is sent tells the user the whole content: without a fault the frame, the last status and the
-- rest for which the frame has no room; with a fault the content over the fallback.
abbrev pub Tells : CardConfig → Text → Answers → Done → Type 0
Tells cfg content a d =
    (d.fault ≡ none
      → Mem (streams (cfg.norm (truncate content)) true true) d.sent
        × Mem (puts finished (cfg.norm content) true) d.sent
        × (is_empty (overflow_remainder content) ≡ false
            → cfg.has_rest ≡ true
            → Mem (delivers_rest (overflow_remainder content) a.rest_ok) d.sent))
    × (d.fault ≢ none → Mem (falls_back content a.fallback_ok) d.sent)

rest-sent :
    (cfg : CardConfig) (content : Text) (a : Answers)
    → is_empty (overflow_remainder content) ≡ false
    → cfg.has_rest ≡ true
    → Mem (delivers_rest (overflow_remainder content) a.rest_ok) (
        if is_empty (overflow_remainder content) || not cfg.has_rest
        then []
        else delivers_rest (overflow_remainder content) a.rest_ok ∷ [])
rest-sent cfg content a long has = rw (long, has) (mem-cons.1 (Or.inl refl))

module _ (cfg : CardConfig) (content : Text) (a : Answers) (has : cfg.has_fallback ≡ true)
    (some_text : is_blank content ≡ false) where
  fallback-sent : Mem (falls_back content a.fallback_ok) (try_fallback cfg content a.fallback_ok).1
  fallback-sent =
      rw (try_fallback-sent cfg content a.fallback_ok has some_text) (mem-cons.1 (Or.inl refl))

  close_card-Tells :
      (s : CardStreamer) (sent : List Action)
      → Mem (streams (cfg.norm (truncate content)) true true) sent
      → Tells cfg content a
          (record (close_card cfg content a s) { sent = sent ++ (close_card cfg content a s).sent })
  unfolding close_card done
  close_card-Tells s sent framed = (
    λ e.
        let ok = fault_of-none a.status_ok e in
        (
          mem-append_left _ framed,
          mem-append_right sent
              (mem-cons.1 (Or.inl (ap (puts finished (cfg.norm content)) (sym ok)))),
          λ long has_rest. mem-append_right sent (
              mem-cons.1 (
                Or.inr (
                  mem-append_right
                    (if a.status_ok then [] else (try_fallback cfg content a.fallback_ok).1)
                    (rest-sent cfg content a long has_rest)))),
        ),
    λ bad. mem-append_right sent (
        mem-cons.1 (
          Or.inr (
            mem-append_left _ (
              if-mem a.status_ok (falls_back content a.fallback_ok) _
                (fault_of-some a.status_ok bad) fallback-sent)))),
  )

  after_frame-Tells :
      (sent : List Action) (s : CardStreamer) (fault : Option Fault)
      → (fault ≡ none → Mem (streams (cfg.norm (truncate content)) true true) sent)
      → Tells cfg content a (after_frame cfg content a sent s fault)
  unfolding after_frame done
  after_frame-Tells sent s (some e) framed =
      (λ wrong. absurd (cc), λ _. mem-append_right sent fallback-sent)
  after_frame-Tells sent s none framed = close_card-Tells s sent (framed refl)

  update-Tells :
      (s : CardStreamer)
      → let d = update cfg content true a s in
        Tells cfg content a (after_frame cfg content a d.sent d.streamer d.fault)
  unfolding update
  update-Tells s =
      let d = update_on cfg content true a s s.card in
      after_frame-Tells d.sent d.streamer d.fault (update_on-IsFramed cfg content a s s.card)

-- Finishing a card with a content that is not blank, under a fallback: without a fault the final frame
-- and the FINISHED status are accepted, and what has no room in the frame is sent on; with a fault, and
-- where there is no card, the whole content goes over the fallback. Frame and rest make up the content,
-- if it is UTF-8.
pub finish_requests-Tells :
    (cfg : CardConfig) (content : Text) (a : Answers) (s : CardStreamer)
    → cfg.has_fallback ≡ true
    → is_blank content ≡ false
    → (is_some s.card ≡ true → Tells cfg content a (finish_requests cfg content a s))
      × (is_some s.card ≡ false
          → Mem (falls_back content a.fallback_ok) (finish_requests cfg content a s).sent)
      × (IsUtf8 content → truncate content ++ overflow_remainder content ≡ content)
unfolding finish_requests done
finish_requests-Tells cfg content a s has some_text = (
  λ there.
      choose_left (Tells cfg content a) (is_some s.card) _ _ there
        (update-Tells cfg content a has some_text s),
  λ missing.
      choose_right (λ d. Mem (falls_back content a.fallback_ok) d.sent) (is_some s.card) _ _ missing
        (fallback-sent cfg content a has some_text),
  truncate-append content,
)
