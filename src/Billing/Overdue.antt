-- ===== src/Billing/Overdue.antt =====
-- The list of overdue organizations after a command: app/services/billing.py and run_cmd of
-- scripts/manage_billing.py.
use leadpulse.Prelude.{
  ℕ, ◌+◌, ◌≤◌, ◌≡◌, ◌≢◌, inl, inr, false, Option, [], ◌∷◌, ◌==◌, All, Bool-cases, arith,
}
use leadpulse.Prelude.Text.{Text}
use leadpulse.Billing.{
  Organization, Table, Lookup, missing, several, one, update, mark_org_paid, suspend_org, Command,
  changed, on_org, run_cmd, list_overdue_orgs, list_overdue, mark_paid, mark_past_due, suspend,
  reactivate, is_overdue, thirty_days, get_organization_by_id_or_slug,
}
use leadpulse.Billing.Table.{IsUnique, KeepsIdentity, update-IsUnique}
use leadpulse.Billing.Events.{
  mark_org_paid-KeepsIdentity, mark_org_past_due-KeepsIdentity, suspend_org-KeepsIdentity,
  reactivate_org-KeepsIdentity,
}

-- A change to rows that are not overdue keeps the changed organization out of the list.
All-list_overdue_orgs-update :
    (t id : ℕ) (f : Organization → Organization) (db : Table)
    → ((o : Organization) → is_overdue t (f o) ≡ false)
    → All (λ o. o.id ≢ id) (list_overdue_orgs t (update id f db))
unfolding list_overdue_orgs update
All-list_overdue_orgs-update t id f [] k = tt
All-list_overdue_orgs-update t id f (o ∷ os) k =
    let rest = All-list_overdue_orgs-update t id f os k in
    elim (Bool-cases (o.id == id)) [
      | inl same ↦ rw same rw (k o) rest
      | inr differs ↦ elim (Bool-cases (is_overdue t o)) [
        | inl listed ↦ rw differs rw listed (ground arith, rest)
        | inr not_listed ↦ rw differs rw not_listed rest
      ]
    ]

module _ (parse_uuid : Text → Option ℕ) where
  on_org-changed :
      (l : Lookup) (f : Organization → Organization) (db after : Table) (id : ℕ)
      → on_org l f db ≡ (changed id, after)
      → after ≡ update id f db
  unfolding on_org
  on_org-changed missing f db after id h = ground arith
  on_org-changed several f db after id h = ground arith
  on_org-changed (one o) f db after id h = ground arith

  -- An organization that a command has marked as paid is not listed as overdue for thirty days.
  pub run_cmd-paid :
      (now t : ℕ) (ref : Text) (customer : Option Text) (db after : Table) (id : ℕ)
      → run_cmd parse_uuid now (mark_paid ref customer) db ≡ (changed id, after)
      → t ≤ now + thirty_days
      → All (λ o. o.id ≢ id) (list_overdue_orgs t after)
  unfolding run_cmd mark_org_paid
  run_cmd-paid now t ref customer db after id h le =
      rw
        (on_org-changed (get_organization_by_id_or_slug parse_uuid ref db)
          (mark_org_paid now customer) db after id h)
        (All-list_overdue_orgs-update t id (mark_org_paid now customer) db not_due)
    where
      not_due : (o : Organization) → is_overdue t (mark_org_paid now customer o) ≡ false
      not_due o = ground arith

  -- An organization that a command has suspended is not listed as overdue at any time.
  pub run_cmd-suspended :
      (now t : ℕ) (ref : Text) (db after : Table) (id : ℕ)
      → run_cmd parse_uuid now (suspend ref) db ≡ (changed id, after)
      → All (λ o. o.id ≢ id) (list_overdue_orgs t after)
  unfolding run_cmd suspend_org
  run_cmd-suspended now t ref db after id h =
      rw
        (on_org-changed (get_organization_by_id_or_slug parse_uuid ref db) suspend_org db after id
          h)
        (All-list_overdue_orgs-update t id suspend_org db not_due)
    where
      not_due : (o : Organization) → is_overdue t (suspend_org o) ≡ false
      not_due o = ground arith

  on_org-IsUnique :
      (l : Lookup) (f : Organization → Organization) (db : Table)
      → KeepsIdentity f
      → IsUnique db
      → IsUnique (on_org l f db).1
  unfolding on_org
  on_org-IsUnique missing f db k u = u
  on_org-IsUnique several f db k u = u
  on_org-IsUnique (one o) f db k u = update-IsUnique f o.id db k u

  -- Every command keeps the columns unique.
  pub run_cmd-IsUnique :
      (now : ℕ) (c : Command) (db : Table) → IsUnique db → IsUnique (run_cmd parse_uuid now c db).1
  unfolding run_cmd
  run_cmd-IsUnique now list_overdue db u = u
  run_cmd-IsUnique now (mark_paid ref customer) db u =
      on_org-IsUnique (get_organization_by_id_or_slug parse_uuid ref db) _ db
        (mark_org_paid-KeepsIdentity now customer) u
  run_cmd-IsUnique now (mark_past_due ref) db u =
      on_org-IsUnique (get_organization_by_id_or_slug parse_uuid ref db) _ db
        mark_org_past_due-KeepsIdentity u
  run_cmd-IsUnique now (suspend ref) db u =
      on_org-IsUnique (get_organization_by_id_or_slug parse_uuid ref db) _ db
        suspend_org-KeepsIdentity u
  run_cmd-IsUnique now (reactivate ref) db u =
      on_org-IsUnique (get_organization_by_id_or_slug parse_uuid ref db) _ db
        (reactivate_org-KeepsIdentity now) u
