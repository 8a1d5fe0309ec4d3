-- ===== src/Safety/Media.antt =====
-- internal/safety/media_pipeline.go: media messages of one conversation and type that come close
-- together are merged. Each operation holds the mutex, so it is one step. `flushed` has the merged
-- messages given to the handler, each in a goroutine of its own, in the order of the flushes. Of
-- SHA-256, which is not modelled, `digest` is the hexadecimal start.
pub mod Keys
pub mod Flushes
pub mod Handed
pub mod Pushes
use dingtalk_channel_sdk_go.Prelude.{
  leb, eqb, if◌then◌else◌, length, last_of, Text, encode_rune, bytes, ◌==◌, is_empty, Map, lookup,
  insert, remove, ℕ, zero, suc, ◌+◌, Bool, true, false, not, ◌&&◌, ◌||◌, Option, none, some, List,
  [], ◌∷◌, ◌++◌, arith,
}
use dingtalk_channel_sdk_go.Prelude.{encode_rune}
use dingtalk_channel_sdk_go.Types.{IncomingMessage, Merged, MediaBatchConfig}
use dingtalk_channel_sdk_go.Safety.Queue.{all_resources}

-- `timed`: the timer of the bucket is armed, with the delay of the configuration
pub record MediaBucket : Type 0 where
  pub sources : List IncomingMessage
  pub timed : Bool

pub record MediaPipelineManager : Type 0 where
  pub cfg : MediaBatchConfig
  pub buckets : Map MediaBucket
  pub has_handler : Bool
  pub flushed : List Merged

-- `fillMediaBatchConfig`
unfoldable pub fill_media_batch_config : MediaBatchConfig → MediaBatchConfig
fill_media_batch_config cfg = record cfg {
  delay_ms = if leb cfg.delay_ms 0 then 800 else cfg.delay_ms;
  max_items = if leb cfg.max_items 0 then 9 else cfg.max_items;
}

unfoldable pub new_media_pipeline_manager : MediaBatchConfig → MediaPipelineManager
unfolding fill_media_batch_config
new_media_pipeline_manager cfg = record {
  cfg = fill_media_batch_config cfg;
  buckets = [];
  has_handler = false;
  flushed = [];
}

unfoldable pub is_media : Text → Bool
unfolding bytes
is_media t =
    (t == bytes "picture" || t == bytes "file") || (t == bytes "audio" || t == bytes "video")

unfoldable pub is_compatible : MediaPipelineManager → IncomingMessage → Bool
unfolding is_media
is_compatible m msg = if m.cfg.enabled then is_media msg.msg_type else false

-- the key of a batch; the separator is the byte 0
unfoldable pub batch_key : (Text → Text) → IncomingMessage → Text
unfolding bytes
batch_key digest msg =
    let key = msg.conversation_id ++ (0 ∷ msg.msg_type) in
    if msg.msg_type == bytes "reply" && not (is_empty msg.content)
    then key ++ (0 ∷ digest msg.content)
    else key

-- what stands before the first separator; the whole text, if there is none
unfoldable pub before_sep : Text → Text
before_sep [] = []
before_sep (c ∷ s) = if eqb c 0 then [] else c ∷ before_sep s

unfoldable pub is_chat_key : Text → Text → Bool
unfolding before_sep
is_chat_key key chat_id = before_sep key == chat_id

unfoldable pub kind_display_name : Text → Text
unfolding bytes
kind_display_name t =
    if t == bytes "picture"
    then bytes "图片"
    else (if t == bytes "file"
        then bytes "文件"
        else (if t == bytes "audio"
            then bytes "语音"
            else (if t == bytes "video" then bytes "视频" else bytes "媒体")))

-- `string(rune(count+'0'))` is one character, whatever the count
unfoldable pub format_batch_text : ℕ → Text → Text
unfolding bytes encode_rune
format_batch_text count kind_name =
    if eqb count 1
    then b'[' ∷ (kind_name ++ (b']' ∷ []))
    else b'[' ∷ encode_rune (count + b'0') (bytes "个" ++ (kind_name ++ (b']' ∷ [])))

-- `mergeBatchSources` of the sources `m ∷ ms`
unfoldable pub merge_batch_sources : IncomingMessage → List IncomingMessage → Merged
unfolding format_batch_text kind_display_name all_resources
merge_batch_sources m [] = record { message = m; batched_sources = [] }
merge_batch_sources m (m' ∷ ms) =
    let sources = m ∷ m' ∷ ms in
    let last = last_of m' ms in
    record {
      message = record last {
        resources = all_resources sources;
        text = format_batch_text (length sources) (kind_display_name last.msg_type);
      };
      batched_sources = sources;
    }

unfoldable pub flush_bucket : MediaPipelineManager → Text → MediaPipelineManager
flush_bucket m key = elim (lookup key m.buckets) [
  | none ↦ m
  | some bucket ↦ elim bucket.sources [
    | [] ↦ m
    | s ∷ ss ↦
        let merged = merge_batch_sources s ss in
        record m {
          buckets = remove key m.buckets;
          flushed = if m.has_handler then m.flushed ++ (merged ∷ []) else m.flushed;
        }
  ]
]

-- the sources of a bucket, if there is one
unfoldable pub sources_of : Option MediaBucket → List IncomingMessage
sources_of none = []
sources_of (some bucket) = bucket.sources

-- `Push`; its handler is not nil
unfoldable pub push : (Text → Text) → MediaPipelineManager → IncomingMessage → MediaPipelineManager
push digest m msg =
    let key = batch_key digest msg in
    let sources = sources_of (lookup key m.buckets) ++ (msg ∷ []) in
    let full = leb m.cfg.max_items (length sources) in
    let m' = record m {
      has_handler = true;
      buckets = insert key (record { sources = sources; timed = not full }) m.buckets;
    } in
    if full then flush_bucket m' key else m'

-- the keys of the buckets, in the order in which a `range` meets them
unfoldable pub keys_where : (Text → Bool) → Map MediaBucket → List Text
keys_where test [] = []
keys_where test ((k, b) ∷ rest) = if test k then k ∷ keys_where test rest else keys_where test rest

unfoldable pub flush_buckets : List Text → MediaPipelineManager → MediaPipelineManager
flush_buckets [] m = m
flush_buckets (k ∷ ks) m = flush_buckets ks (flush_bucket m k)

unfoldable pub flush_incompatible_for :
    MediaPipelineManager → IncomingMessage → MediaPipelineManager
flush_incompatible_for m msg =
    flush_buckets (keys_where (λ k. is_chat_key k msg.conversation_id) m.buckets) m

unfoldable pub dispose : MediaPipelineManager → MediaPipelineManager
dispose m = flush_buckets (keys_where (λ k. true) m.buckets) m
