-- ===== src/Conversations/Pages.antt =====
-- The list of the conversations of a tenant, page by page: list_conversations of
-- app/api/conversation.py and get_conversations_by_tenant of app/database/crud.py.
pub mod Complete
use mathlib.Core.List.Perm
use mathlib.Core.List.{Perm}
use native.Mathlib.Nat.{suc-mul}
use leadpulse.Prelude.{
  Bool, false, ◌||◌, ◌&&◌, ltb, ◌==◌, if◌then◌else◌, inl, inr, Bool-cases, All, ℕ, zero, suc, ◌+◌,
  ◌*◌, ◌≤◌, ◌≡◌, refl, ap, ◌∙◌, none, some, List, [], ◌∷◌, ◌++◌, keep_if, take, drop, reverse,
  length, arith,
}
use leadpulse.Prelude.Lists.{All-imp}
use leadpulse.Prelude.Text.{Text}
use leadpulse.Billing.{text_is}
use leadpulse.Access.{
  Outside, AccessSettings, Headers, Access, Identity, granted, unauthorized, forbidden, crashed,
  get_current_user,
}
use leadpulse.Accounts.Requests.{Reply, ok, http}
use leadpulse.Memory.{Conversation}

-- `created_at` of the rows, and how the database orders two rows of one time in the query of an
-- offset, which ORDER BY leaves open.
module _ (created : Conversation → ℕ) (tie : ℕ → Conversation → Conversation → Bool) where
  -- ORDER BY created_at DESC.
  abbrev pub is_before : ℕ → Conversation → Conversation → Bool
  is_before offset c d = ltb (created d) (created c) || created d == created c && tie offset c d

  unfoldable pub insert_row : ℕ → Conversation → List Conversation → List Conversation
  insert_row offset c [] = c ∷ []
  insert_row offset c (d ∷ ds) =
      let rest = insert_row offset c ds in if is_before offset c d then c ∷ d ∷ ds else d ∷ rest

  unfoldable pub order_rows : ℕ → List Conversation → List Conversation
  order_rows offset [] = []
  order_rows offset (c ∷ cs) = insert_row offset c (order_rows offset cs)

  unfoldable pub rows_of_tenant : ℕ → Text → List Conversation → List Conversation
  rows_of_tenant offset tenant rows =
      order_rows offset (keep_if (λ c. text_is c.tenant_id tenant) rows)

  -- `get_conversations_by_tenant`
  unfoldable pub get_conversations_by_tenant : Text → ℕ → ℕ → List Conversation → List Conversation
  get_conversations_by_tenant tenant limit offset rows =
      take limit (drop offset (rows_of_tenant offset tenant rows))

module _ (created : Conversation → ℕ) (tie : ℕ → Conversation → Conversation → Bool) (x : Outside)
    (st : AccessSettings) (str_of : ℕ → Text) where
  abbrev pub page_for : Access → ℕ → ℕ → List Conversation → Reply (List Conversation)
  page_for unauthorized limit offset rows = http 401
  page_for forbidden limit offset rows = http 403
  page_for crashed limit offset rows = Reply.crashed
  page_for (granted i) limit offset rows = elim i.organization [
    | none ↦ http 400
    | some id ↦ ok (get_conversations_by_tenant created tie (str_of id) limit offset rows)
  ]

  -- `list_conversations`
  unfoldable pub list_conversations :
      Headers → ℕ → ℕ → List Conversation → Reply (List Conversation)
  list_conversations h limit offset rows = page_for (get_current_user x st h) limit offset rows

  abbrev shown : Reply (List Conversation) → List Conversation
  shown (ok cs) = cs
  shown (http n) = []
  shown Reply.crashed = []

  -- What so many pages from an offset on show, one after the other.
  unfoldable pub pages : Headers → ℕ → List Conversation → ℕ → ℕ → List Conversation
  pages h limit rows offset zero = []
  pages h limit rows offset (suc n) =
      shown (list_conversations h limit offset rows) ++ pages h limit rows (offset + limit) n
