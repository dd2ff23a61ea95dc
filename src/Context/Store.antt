-- ===== src/Context/Store.antt =====
-- `SqlAlchemySummaryStore` of core/src/octoforge_core/context/store.py, over the tables
-- `dialog_summaries` and `messages`, and the read of dialogs/store.py that derives the compaction
-- boundary from the summaries.
use octo_forge.Base.{
  ℕ, max, String, Bool, not, Option, none, some, List, [], ◌∷◌, ◌++◌, ◌&&◌, str_eq, is_none, leb,
  ltb, take, Result, ok, ◌>>=◌, select_where, count_where, delete_where, order_by, order_with,
}
use octo_forge.Domain.{ReadError, MessageRole, role_of, ChatMessage}
use octo_forge.Dialogs.Messages.{MessageRow, Messages}
use octo_forge.Dialogs.Log.{of_dialog, read_all, rows_after, list_after}

abbrev pub no_compacted_seq : ℕ
no_compacted_seq = 0

-- a row of the table, and what the store hands over of it
pub record DialogueSummary : Type 0 where
  pub id : String
  pub dialog_id : String
  pub seq_from : ℕ
  pub seq_to : ℕ
  pub topics : List String
  pub content : String
  pub created_at : ℕ

abbrev pub Summaries : Type 0
Summaries = List DialogueSummary

pub record ArchivedMessage : Type 0 where
  pub seq : ℕ
  pub role : MessageRole
  pub content : String
  pub created_at : ℕ

-- `WHERE dialog_id = d`
abbrev pub summarizes : String → DialogueSummary → Bool
summarizes d s = str_eq s.dialog_id d

unfoldable pub create : DialogueSummary → Summaries → Summaries
create summary rows = rows ++ summary ∷ []

unfoldable pub list_for_dialog : String → Summaries → Summaries
list_for_dialog d rows = order_by (λ s. s.seq_from) (select_where (summarizes d) rows)

unfoldable pub replace_for_dialog : String → DialogueSummary → Summaries → Summaries
replace_for_dialog d summary rows = delete_where (summarizes d) rows ++ summary ∷ []

unfoldable pub delete_for_dialog : String → Summaries → Summaries
delete_for_dialog d rows = delete_where (summarizes d) rows

-- `coalesce(max(seq_to), NO_COMPACTED_SEQ)`
abbrev pub highest : Summaries → ℕ
highest [] = no_compacted_seq
highest (s ∷ rows) = max s.seq_to (highest rows)

unfoldable pub max_seq_to : String → Summaries → ℕ
max_seq_to d rows = highest (select_where (summarizes d) rows)

-- `(count, boundary)`
unfoldable pub count_hot_tail : String → Messages → Summaries → ℕ × ℕ
count_hot_tail d messages rows =
    (count_where (λ r. of_dialog d r && ltb (max_seq_to d rows) r.seq) messages, max_seq_to d rows)

-- `SqlAlchemyMessageRepository.list_hot_slice`, the boundary in a subquery
unfoldable pub list_hot_slice : String → Messages → Summaries → Result ReadError (List ChatMessage)
list_hot_slice d messages rows = list_after d (max_seq_to d rows) messages

unfoldable pub to_archived : MessageRow → Result ReadError ArchivedMessage
to_archived row = do
  role ← role_of row.role
  ok (record { seq = row.seq; role = role; content = row.content; created_at = row.created_at })

abbrev pub first_rows {ℓ} : {A : Type ℓ} → Option ℕ → List A → List A
first_rows none rows = rows
first_rows (some n) rows = take n rows

unfoldable pub tail_after :
    String → ℕ → Option ℕ → Messages → Result ReadError (List ArchivedMessage)
tail_after d seq limit messages =
    read_all to_archived (first_rows limit (rows_after d seq messages))

-- the column of the first row, if there is one
abbrev pub first_tokens : Messages → Option ℕ
first_tokens [] = none
first_tokens (r ∷ rows) = r.prompt_tokens

unfoldable pub latest_prompt_tokens : String → ℕ → Messages → Option ℕ
latest_prompt_tokens d after_seq messages = first_tokens (
    order_with (λ r s. leb s.seq r.seq)
      (select_where
        (λ r.
          of_dialog d r
          && (ltb after_seq r.seq && (str_eq r.role "assistant" && not (is_none r.prompt_tokens))))
        messages))
