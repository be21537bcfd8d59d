-- ===== src/Sync/Queue/Claim.antt =====
-- What `claimNextInvoiceUpload` (src/main/repositories/syncQueue.repository.ts) leases, and what it
-- leaves alone.
use pos_desktop.Prelude.{
  ℕ, ◌≡◌, refl, sym, ◌∙◌, ap, subst, ◌⊎◌, inl, inr, Bool, true, false, Option, none, some, List, [],
  ◌∷◌, filter, find, ok, refuse_if, on_ok, ok-inj, and_true, All, All-map, All-member, Each, Any,
  Bool-cases, Option-cases, find-member, filter-All, only_match, filter-All_back, find-none,
}
use pos_desktop.Prelude.Sorting.{
  sort_by, sort_by-All, sort_by-All_back, sort_by-Sorted, find-Sorted,
}
use pos_desktop.Prelude.Text.{text_eq, text_eq_refl}
use pos_desktop.Sync.States.{SyncQueueState}
use pos_desktop.Sync.Queue.{
  QueueItem, LocalInvoice, Tables, UploadOwner, Fault, update_where, with_uuid, update_invoices,
  in_state, update_one,
}
use pos_desktop.Sync.Queue.Uploads.{
  Candidate, ClaimedUpload, claim_row, claim, claim_found, claim_next_invoice_upload, drains_after,
  is_claimable, candidate_of, dispatched, claimed_upload,
}
use pos_desktop.Sync.Queue.Moves.{update_one-queue}
use pos_desktop.Sync.Queue.Ready.{
  IsReady, IsReady-iff, DrainsFirst, drains_after-DrainsFirst, drains_after-IsOrder,
}

update_where-Each-All :
    {A : Type 0} (R : A → A → Type 0) (matches : A → Bool) (change : A → A)
    → ((x : A) → R x x)
    → (xs : List A) → All (λ x. matches x ≡ true → R x (change x)) xs
    → Each R xs (update_where matches change xs)
update_where-Each-All R matches change same [] changed = tt
update_where-Each-All R matches change same (x ∷ xs) (here, later) = (
  elim (Bool-cases (matches x)) [ inl m ↦ rw m (here m) | inr m ↦ rw m (same x) ],
  update_where-Each-All R matches change same xs later,
)

-- `row` is leased; every other row is as it was.
abbrev pub Leased : ℕ → QueueItem → QueueItem → QueueItem → Type 0
Leased now row a b = (b ≡ a) ⊎ (a ≡ row) × (b ≡ claim_row now row row)

-- What a claim that returns an upload did.
abbrev pub IsClaim :
    UploadOwner → ℕ → (Candidate → Bool) → Tables → Tables → Option ClaimedUpload → Type 0
IsClaim owner now accept t u none =
    (u ≡ t)
    × All (λ row. IsReady owner now t.invoices row → accept (candidate_of row) ≡ false) t.queue
IsClaim owner now accept t u (some upload) =
    (row : QueueItem) × Any (λ x. x ≡ row) t.queue
    × IsReady owner now t.invoices row
    × (accept (candidate_of row) ≡ true)
    × All (λ x. IsReady owner now t.invoices x → accept (candidate_of x) ≡ true → DrainsFirst row x)
        t.queue
    × (upload ≡ claimed_upload row)
    × Each (Leased now row) t.queue u.queue
    × (u.invoices
        ≡ update_where (λ i. text_eq i.local_uuid row.local_aggregate_uuid) (dispatched now)
            t.invoices)

update_invoices-where :
    (matches : LocalInvoice → Bool) (change : LocalInvoice → LocalInvoice)
    (xs ys : List LocalInvoice)
    → update_invoices matches change xs ≡ ok ys
    → ys ≡ update_where matches change xs
unfolding update_invoices
update_invoices-where matches change xs ys h =
    on_ok (refuse_if _ Fault.constraint_failed) _ h λ v fits fin. sym (ok-inj fin)

claimable-in_state :
    (owner : UploadOwner) (now : ℕ) (invoices : List LocalInvoice) (row : QueueItem)
    → is_claimable owner now invoices row ≡ true
    → in_state row.local_queue_uuid SyncQueueState.pending row ≡ true
unfolding is_claimable in_state with_uuid
claimable-in_state owner now invoices row h =
    let (h1, own) = and_true _ _ h in
    let (h2, due) = and_true _ _ h1 in
    let (upload, pending) = and_true _ _ h2 in rw (text_eq_refl row.local_queue_uuid) pending

claim-IsClaim :
    (owner : UploadOwner) (now : ℕ) (accept : Candidate → Bool) (row : QueueItem) (t u : Tables)
    (c : Option ClaimedUpload)
    → Any (λ x. x ≡ row) t.queue
    → is_claimable owner now t.invoices row ≡ true
    → accept (candidate_of row) ≡ true
    → All
        (λ x.
          is_claimable owner now t.invoices x ≡ true
          → accept (candidate_of x) ≡ true
          → drains_after row x ≡ false)
        t.queue
    → claim now row t ≡ ok (u, c)
    → IsClaim owner now accept t u c
unfolding claim
claim-IsClaim owner now accept row t u c place claimable accepted first h =
    let matches = in_state row.local_queue_uuid SyncQueueState.pending in
    on_ok (update_one matches (claim_row now row) t) _ h λ v updated h1.
      on_ok
        (update_invoices (λ i. text_eq i.local_uuid row.local_aggregate_uuid) (dispatched now)
          v.invoices)
        _ h1
        λ invoices moved fin.
          let (same, once) = update_one-queue matches (claim_row now row) t updated in
          let queue : Each (Leased now row) t.queue v.queue =
            subst (λ w. Each (Leased now row) t.queue w.queue) (sym same)
              (update_where-Each-All (Leased now row) matches (claim_row now row) (λ x. inl refl)
                t.queue
                (All-map (λ x only m. inr (only m, ap (claim_row now row) (only m))) t.queue
                  (only_match matches t.queue row once place
                    (claimable-in_state owner now t.invoices row claimable)))) in
          let dispatch =
            update_invoices-where (λ i. text_eq i.local_uuid row.local_aggregate_uuid)
              (dispatched now) v.invoices invoices moved in
          subst (λ r. IsClaim owner now accept t r.0 r.1) (ok-inj fin)
            (
              row,
              place,
              (IsReady-iff owner now t.invoices row).0 claimable,
              accepted,
              All-map
                  (λ x f ready allowed.
                    drains_after-DrainsFirst row x
                      (f ((IsReady-iff owner now t.invoices x).1 ready) allowed))
                  t.queue first,
              refl,
              queue,
              dispatch
                  ∙ ap
                      (λ w.
                        update_where (λ i. text_eq i.local_uuid row.local_aggregate_uuid)
                          (dispatched now) w.invoices)
                      same,
            )

-- A claim that returns nothing changes nothing, and then every pending, due upload of the owner's
-- was refused by `accept`. A claim that returns an upload returns the evidence of such a row that
-- `accept` allowed, with its dispatch counted, and no other row that could be claimed and is allowed
-- drains before it; that row becomes `uploading`, every other row is as it was, and the invoice of
-- the row, if it is there, is marked as dispatched.
pub claim_next_invoice_upload-IsClaim :
    (owner : UploadOwner) (now : ℕ) (accept : Candidate → Bool) (t u : Tables)
    (c : Option ClaimedUpload)
    → claim_next_invoice_upload owner now accept t ≡ ok (u, c)
    → IsClaim owner now accept t u c
unfolding claim_next_invoice_upload claim_found
claim_next_invoice_upload-IsClaim owner now accept t u c h =
    let claimable = is_claimable owner now t.invoices in
    let allowed = λ (row : QueueItem). accept (candidate_of row) in
    let rows = filter claimable t.queue in
    let candidates = sort_by drains_after rows in
    elim (Option-cases (find allowed candidates)) [
      | inl nobody ↦
          let refused : All (λ x. claimable x ≡ true → allowed x ≡ false) t.queue =
            filter-All_back (λ x. allowed x ≡ false) claimable t.queue
              (sort_by-All_back drains_after (λ x. allowed x ≡ false) rows
                (find-none allowed candidates nobody)) in
          subst (λ r. IsClaim owner now accept t r.0 r.1) (ok-inj (rw nobody at h))
            (
              refl,
              All-map (λ x f ready. f ((IsReady-iff owner now t.invoices x).1 ready)) t.queue
                  refused,
            )
      | inr (row, found) ↦
          let (member, accepted) = find-member allowed candidates row found in
          let (place, ready) =
            All-member (λ x. Any (λ y. y ≡ x) t.queue × (claimable x ≡ true)) candidates row
              (sort_by-All drains_after (λ x. Any (λ y. y ≡ x) t.queue × (claimable x ≡ true)) rows
                (filter-All claimable t.queue))
              member in
          let first : All (λ x. claimable x ≡ true → allowed x ≡ true → drains_after row x ≡ false)
              t.queue =
            filter-All_back (λ x. allowed x ≡ true → drains_after row x ≡ false) claimable t.queue
              (sort_by-All_back drains_after (λ x. allowed x ≡ true → drains_after row x ≡ false)
                rows
                (find-Sorted drains_after drains_after-IsOrder allowed candidates row
                  (sort_by-Sorted drains_after drains_after-IsOrder rows) found)) in
          claim-IsClaim owner now accept row t u c place ready accepted first (rw found at h)
    ]
