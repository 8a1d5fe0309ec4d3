-- ===== src/Card/Client.antt =====
-- card.go: the calls of the card client, and the cards that they create. The token, the exchange and
-- the waiting for the rate limit are libraries or other parts here: what they come to is given.
use dingtalk_channel_sdk_go.Prelude.{
  eqb, if◌then◌else◌, Text, bytes, contains, ℕ, Bool, true, false, ◌&&◌, Option, none, some, [],
  ◌++◌,
}
use dingtalk_channel_sdk_go.Card.Streamer.{CardInstance}

pub record ApiError : Type 0 where
  pub status : ℕ
  pub code : Text
  pub msg : Text
  pub body : Text

-- `isQpsLimit`
unfoldable pub is_qps_limit : ApiError → Bool
unfolding bytes
is_qps_limit e = eqb e.status 403 && contains (bytes "QpsLimit") e.code

-- how an exchange ends: an error of the API, another error, or the raw body
pub data Reply : Type 0 where
  api_fails : ApiError → Reply
  fails : Reply
  succeeds : Text → Reply

-- the wait for the second attempt, which the context may end
abbrev again : Bool → Reply → Reply
again waited second_reply = if waited then second_reply else fails

-- `callRaw`: with the ends of its two waits, and of its exchanges, of which the second is made only
-- after a QPS limit; and whether the bucket has been told to back off
unfoldable pub call_raw : Bool → Reply → Bool → Reply → Reply × Bool
call_raw false first waited second_reply = (fails, false)
call_raw true fails waited second_reply = (fails, false)
call_raw true (succeeds raw) waited second_reply = (succeeds raw, false)
call_raw true (api_fails e) waited second_reply =
    if is_qps_limit e then (again waited second_reply, true) else (api_fails e, false)

-- `callChecked`: a body that reports a failure is an error
unfoldable pub check_body : Reply → Reply
check_body fails = fails
check_body (api_fails e) = api_fails e
check_body (succeeds raw) =
    if contains (bytes "\"success\":false") raw
    then api_fails (record { status = 200; code = bytes "BusinessFailure"; msg = raw; body = [] })
    else succeeds raw

unfoldable pub call_checked : Bool → Reply → Bool → Reply → Reply
unfolding call_raw check_body
call_checked waited first waited_again second_reply =
    check_body (call_raw waited first waited_again second_reply).0

pub record CardTarget : Type 0 where
  pub is_group : Bool
  pub conversation_id : Text
  pub user_id : Text
  pub robot_code : Text

-- the space in which a card is delivered
unfoldable pub open_space_id : CardTarget → Text
open_space_id t =
    if t.is_group
    then bytes "dtv1.card//IM_GROUP." ++ t.conversation_id
    else bytes "dtv1.card//IM_ROBOT." ++ t.user_id

-- the end of a creation and a delivery, of which the second is made only after the first
unfoldable pub deliver_after : Reply → Reply → Option CardInstance
deliver_after fails delivered = none
deliver_after (api_fails e) delivered = none
deliver_after (succeeds raw) fails = none
deliver_after (succeeds raw) (api_fails e) = none
deliver_after (succeeds raw) (succeeds raw') = some (record { inputing_started = false })

-- `createAndDeliver`, of the ends of its calls
unfoldable pub create_and_deliver : Reply → Reply → Option CardInstance
unfolding deliver_after check_body
create_and_deliver created delivered = deliver_after created (check_body delivered)
