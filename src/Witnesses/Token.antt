-- ===== src/Witnesses/Token.antt =====
-- token.go and internal/safety/dedup.go at concrete inputs.
use dingtalk_channel_sdk_go.Prelude.{
  List, any, Text, lookup, pos, ◌≡◌, refl, true, false, [], ◌∷◌, arith,
}
use mathlib.Core.List.{mem-cons_self}
use dingtalk_channel_sdk_go.Token.{
  new_token_provider, answers, no_answer, got, request_failed, is_fresh, store, get, term_of,
}
use dingtalk_channel_sdk_go.Token.Cache.{get_keeps, get_fails}
use dingtalk_channel_sdk_go.Safety.Dedup.{
  Deduper, new_deduper_with_config, is_duplicate, check_and_mark,
}
use dingtalk_channel_sdk_go.Safety.Dedup.Remembers.{
  Call, checks, sweeps, disposes, run, keys_of_all, check_and_mark_finds,
}

abbrev key : Text
key = 97 ∷ []

get_keeps_example :
    let t' = (get new_token_provider 5 6 (answers key (pos 100))).0 in
    ((get new_token_provider 5 6 (answers key (pos 100))).1 ≡ got key)
    × (get t' 7 8 no_answer ≡ (t', got key, false))
unfolding new_token_provider is_fresh term_of
get_keeps_example =
    get_keeps new_token_provider 5 6 7 8 key (pos 100) no_answer refl refl (omega arith)
      (omega arith)

get_fails_example :
    ((get new_token_provider 5 6 no_answer).0 ≡ new_token_provider)
    × (is_fresh new_token_provider 5 ≡ false)
unfolding new_token_provider is_fresh get store
get_fails_example = get_fails new_token_provider 5 6 no_answer request_failed refl

abbrev filter : Deduper
filter = new_deduper_with_config 50 (record { ttl = 100; max_entries = 10; sweep_interval = 5 })

abbrev meanwhile : List Call
meanwhile =
    checks 20 ((98 ∷ []) ∷ key ∷ []) ∷ checks 25 ((99 ∷ []) ∷ []) ∷ sweeps 30 ∷ disposes ∷ []

check_and_mark_finds_example :
    (check_and_mark (run (check_and_mark filter 3 (key ∷ [])).0 meanwhile) 40 (key ∷ [])).1 ≡ true
unfolding new_deduper_with_config check_and_mark is_duplicate any lookup keys_of_all
check_and_mark_finds_example =
    check_and_mark_finds filter 3 40 (key ∷ []) (key ∷ []) key meanwhile (omega arith) refl
      (omega arith, (omega arith, (omega arith, (tt, tt)))) refl mem-cons_self mem-cons_self
      (omega arith)
