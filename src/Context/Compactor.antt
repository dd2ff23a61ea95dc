-- ===== src/Context/Compactor.antt =====
-- `LlmContextCompactor` of core/src/octoforge_core/context/compactor.py. The model's reply to the
-- merge request, parsed into topics and content, is an argument, as are the id of the new summary and
-- the clock's answer. The reads of `assemble`, which other tasks' writes may come between, take their own
-- tables. `_compact` is one step here, from its reads to its write: what others write while the model
-- merges is not modelled.
use octo_forge.Base.{
  ℕ, ◌+◌, ◌-◌, min, String, Bool, true, false, Option, none, some, List, [], ◌∷◌, ◌||◌, str_length,
  if◌then◌else◌, ◌==◌, ltb, leb, length, opt_test, drop, Result, ok, err, ◌>>=◌,
}
use octo_forge.Domain.{ReadError, ChatMessage}
use octo_forge.Dialogs.Messages.{Messages}
use octo_forge.Tariffs.Limits.{Ledger, append_event, llm_compaction, interactive}
use octo_forge.Domain.{Dialog}
use octo_forge.Context.Store.{
  DialogueSummary, Summaries, ArchivedMessage, list_for_dialog, replace_for_dialog, max_seq_to,
  highest, count_hot_tail, tail_after, latest_prompt_tokens,
}
use octo_forge.Context.Segment.{select_compact_segment, last_of}

pub record CompactorConfig : Type 0 where
  pub hot_max_chars : ℕ
  pub compact_target_chars : ℕ
  pub model_context_tokens : ℕ
  pub context_buffer_tokens : ℕ

abbrev pub segment_fetch_limit : ℕ
segment_fetch_limit = 500

-- the model's reply: its topics and content, and the tokens that the provider reports
pub record Reply : Type 0 where
  pub topics : List String
  pub content : String
  pub usage : Option (ℕ × ℕ)

-- what a compaction raises: a stored role that cannot be read, or the call of the model
pub data CompactionError : Type 0 where
  unread : ReadError → CompactionError
  failed : String → CompactionError

abbrev pub reading {ℓ} : {A : Type ℓ} → Result ReadError A → Result CompactionError A
reading (ok a) = ok a
reading (err e) = err (unread e)

-- `min([segment[0].seq, *(s.seq_from for s in previous)])`
abbrev pub lowest_from : ℕ → Summaries → ℕ
lowest_from first [] = first
lowest_from first (s ∷ previous) = min s.seq_from (lowest_from first previous)

-- the model of the dialogs' call, over the previous summaries and the segment
abbrev pub Summarizer : Type 0
Summarizer = Summaries → List ArchivedMessage → Result CompactionError Reply

-- the meter's record of the call: none without a meter or without a report
abbrev pub metered_call : Bool → Dialog → ℕ → Option (ℕ × ℕ) → Ledger → Ledger
metered_call true dialog now (some usage) ledger =
    append_event
      (record {
        user_id = dialog.user_id;
        kind = llm_compaction;
        origin = interactive;
        prompt_tokens = usage.0;
        completion_tokens = usage.1;
        quantity = 0;
        dialog_id = some dialog.id;
        exchange_id = none;
        task_id = none;
        created_at = none;
      })
      now ledger
metered_call _ dialog now _ ledger = ledger

abbrev pub seq_of : ℕ → Option ArchivedMessage → ℕ
seq_of n none = n
seq_of n (some m) = m.seq

-- `segment[-1].seq` of the segment `first ∷ rest`
abbrev pub last_seq : ArchivedMessage → List ArchivedMessage → ℕ
last_seq first rest = seq_of first.seq (last_of (first ∷ rest))

-- the summary that `_summarize` makes of a reply
abbrev pub merged :
    Dialog
    → String
    → ℕ
    → ArchivedMessage
    → List ArchivedMessage
    → Summaries
    → Reply
    → DialogueSummary
merged dialog id now first rest previous reply = record {
  id = id;
  dialog_id = dialog.id;
  seq_from = lowest_from first.seq previous;
  seq_to = last_seq first rest;
  topics = reply.topics;
  content = reply.content;
  created_at = now;
}

-- `_compact` from its segment on: the summaries and the ledger after it
abbrev pub compact_segment :
    Summarizer
    → Bool
    → Dialog
    → String
    → ℕ
    → List ArchivedMessage
    → Summaries
    → Ledger
    → Result CompactionError (Summaries × Ledger)
compact_segment complete metered dialog id now [] summaries ledger = ok (summaries, ledger)
compact_segment complete metered dialog id now (first ∷ rest) summaries ledger = do
  let previous = list_for_dialog dialog.id summaries
  reply ← complete previous (first ∷ rest)
  ok (
    replace_for_dialog dialog.id (merged dialog id now first rest previous reply) summaries,
    metered_call metered dialog now reply.usage ledger,
  )

-- `_compact`
unfoldable pub compact :
    Summarizer
    → CompactorConfig
    → Bool
    → Dialog
    → String
    → ℕ
    → Messages
    → Summaries
    → Ledger
    → Result CompactionError (Summaries × Ledger)
compact complete config metered dialog id now messages summaries ledger = do
  tail ←
      reading
        (tail_after dialog.id (max_seq_to dialog.id summaries) (some segment_fetch_limit) messages)
  compact_segment complete metered dialog id now
      (select_compact_segment tail config.compact_target_chars) summaries ledger

-- `_tail_of`: the last messages of the narrative, as many as are counted and there
unfoldable pub tail_of {ℓ} : {A : Type ℓ} → List A → ℕ → List A
tail_of history tail_count =
    let count = min tail_count (length history) in
    if count == 0 then [] else drop (length history - count) history

abbrev pub chars : List ChatMessage → ℕ
chars [] = 0
chars (m ∷ ms) = str_length m.content + chars ms

unfoldable pub token_overflow : CompactorConfig → String → ℕ → Messages → Bool
token_overflow config d after_seq messages =
    if config.model_context_tokens == 0
    then false
    else opt_test (leb (config.model_context_tokens - config.context_buffer_tokens))
        (latest_prompt_tokens d after_seq messages)

-- A run's context: the summaries that its topics block renders, when it has one, and the tail.
pub record AssembledContext : Type 0 where
  pub topics : Option Summaries
  pub messages : List ChatMessage
  pub tail_count : ℕ
  pub snapshot_len : ℕ

abbrev pub topics_block : Summaries → Option Summaries
topics_block [] = none
topics_block (s ∷ summaries) = some (s ∷ summaries)

-- what the reads of `assemble` meet, in the order of the code
pub record Reads : Type 0 where
  pub summaries : Summaries
  pub counted_messages : Messages
  pub counted_summaries : Summaries
  pub summaries_again : Summaries
  pub later_messages : Messages

-- the summaries of the dialog that the context is made from
abbrev pub summaries_used : String → Reads → Summaries
summaries_used d reads =
    let found = list_for_dialog d reads.summaries in
    if (count_hot_tail d reads.counted_messages reads.counted_summaries).1 == highest found
    then found
    else list_for_dialog d reads.summaries_again

-- `assemble`: the context, and whether it starts a compaction
unfoldable pub assemble :
    CompactorConfig → Dialog → List ChatMessage → Reads → AssembledContext × Bool
assemble config dialog history reads =
    let counted = count_hot_tail dialog.id reads.counted_messages reads.counted_summaries in
    let summaries = summaries_used dialog.id reads in
    let tail = tail_of history counted.0 in
    (
      record {
        topics = topics_block summaries;
        messages = tail;
        tail_count = length tail;
        snapshot_len = length history;
      },
      ltb config.hot_max_chars (chars tail)
          || token_overflow config dialog.id (highest summaries) reads.later_messages,
    )
