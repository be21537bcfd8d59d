-- ===== src/Sync/Queue/Ready.antt =====
-- Which uploads are ready for dispatch and in which order, as `claimNextInvoiceUpload`
-- (src/main/repositories/syncQueue.repository.ts) selects and sorts them.
use pos_desktop.Prelude.{
  ◌≤◌, ◌<◌, ◌↔◌, ℕ, ◌≡◌, refl, ◌⊎◌, Bool, true, false, Option, none, some, List, [], ◌∷◌, arith,
  Any,
}
use pos_desktop.Prelude.Sorting.{IsOrder}
use pos_desktop.Prelude.Text.{codes, text_eq_iff, text_after, text_after_asym, text_after_trans}
use pos_desktop.Sync.States.{SyncQueueState, state_eq→≡}
use pos_desktop.Sync.Queue.{is_upload, is_owned, is_due, QueueItem, LocalInvoice, UploadOwner}
use pos_desktop.Sync.Queue.Uploads.{later_created, drains_after, sequence_after, is_claimable}

abbrev IsDue : ℕ → Option ℕ → Type 0
IsDue now none = Unit
IsDue now (some at) = at ≤ now

abbrev IsOwner : UploadOwner → QueueItem → LocalInvoice → Type 0
IsOwner owner item i =
    (i.local_uuid ≡ item.local_aggregate_uuid)
    × (i.company_uuid ≡ owner.company_uuid)
    × (i.device_uuid ≡ owner.device_uuid)

-- A pending, due invoice upload whose invoice belongs to the owner.
abbrev pub IsReady : UploadOwner → ℕ → List LocalInvoice → QueueItem → Type 0
IsReady owner now invoices item =
    (item.state ≡ SyncQueueState.pending)
    × IsDue now item.next_attempt_at
    × (item.aggregate_type ≡ codes "invoice")
    × (item.operation ≡ codes "upload")
    × Any (IsOwner owner item) invoices

-- Created before, or at the same time with an identifier that does not come after.
abbrev CreatedFirst : QueueItem → QueueItem → Type 0
CreatedFirst a b =
    (a.created_at < b.created_at)
    ⊎ (a.created_at ≡ b.created_at) × (text_after a.local_queue_uuid b.local_queue_uuid ≡ false)

abbrev SequenceFirst : Option ℕ → Option ℕ → Type 0 → Type 0
SequenceFirst none none Tie = Tie
SequenceFirst none (some n) Tie = ⊥
SequenceFirst (some m) none Tie = Unit
SequenceFirst (some m) (some n) Tie = (m < n) ⊎ (m ≡ n) × Tie

-- `a` may be dispatched before `b`: by the sequence number, the rows that have none last, and then
-- by creation.
abbrev pub DrainsFirst : QueueItem → QueueItem → Type 0
DrainsFirst a b = SequenceFirst a.queue_sequence b.queue_sequence (CreatedFirst a b)

later_created-CreatedFirst : (a b : QueueItem) → later_created a b ≡ false → CreatedFirst a b
unfolding later_created
later_created-CreatedFirst a b h = ground arith

sequence_after-SequenceFirst :
    (m n : Option ℕ) (tie : Bool) (Tie : Type 0)
    → (tie ≡ false → Tie)
    → sequence_after m n tie ≡ false
    → SequenceFirst m n Tie
sequence_after-SequenceFirst none none tie Tie f h = f h
sequence_after-SequenceFirst none (some n) tie Tie f h = cc
sequence_after-SequenceFirst (some m) none tie Tie f h = tt
sequence_after-SequenceFirst (some m) (some n) tie Tie f h = ground arith

pub drains_after-DrainsFirst : (a b : QueueItem) → drains_after a b ≡ false → DrainsFirst a b
unfolding drains_after
drains_after-DrainsFirst a b h =
    sequence_after-SequenceFirst a.queue_sequence b.queue_sequence (later_created a b)
      (CreatedFirst a b) (later_created-CreatedFirst a b) h

IsOwner-Any :
    (owner : UploadOwner) (item : QueueItem) (invoices : List LocalInvoice)
    → (is_owned owner invoices item ≡ true) ↔ Any (IsOwner owner item) invoices
unfolding is_owned
IsOwner-Any owner item [] = (λ h. cc, λ h. absurd h)
IsOwner-Any owner item (i ∷ invoices) = ground (
  arith,
  text_eq_iff i.local_uuid item.local_aggregate_uuid,
  text_eq_iff i.company_uuid owner.company_uuid,
  text_eq_iff i.device_uuid owner.device_uuid,
  IsOwner-Any owner item invoices,
)

IsDue-iff : (now : ℕ) (at : Option ℕ) → (is_due now at ≡ true) ↔ IsDue now at
IsDue-iff now none = (λ h. tt, λ h. refl)
IsDue-iff now (some at) = ground arith

pub IsReady-iff :
    (owner : UploadOwner) (now : ℕ) (invoices : List LocalInvoice) (item : QueueItem)
    → (is_claimable owner now invoices item ≡ true) ↔ IsReady owner now invoices item
unfolding is_claimable is_upload
IsReady-iff owner now invoices item = ground (
  arith,
  IsOwner-Any owner item invoices,
  IsDue-iff now item.next_attempt_at,
  text_eq_iff item.aggregate_type (codes "invoice"),
  text_eq_iff item.operation (codes "upload"),
  state_eq→≡ (item.state) SyncQueueState.pending,
)

later_created-IsOrder : IsOrder later_created
unfolding later_created
later_created-IsOrder = (
  λ x y h. ground (arith, text_after_asym x.local_queue_uuid y.local_queue_uuid),
  λ x y z h k.
      ground (arith, text_after_trans x.local_queue_uuid y.local_queue_uuid z.local_queue_uuid),
)

sequence_asym :
    (m n : Option ℕ) (tie back : Bool)
    → (tie ≡ true → back ≡ false)
    → sequence_after m n tie ≡ true
    → sequence_after n m back ≡ false
sequence_asym none none tie back f h = f h
sequence_asym none (some n) tie back f h = refl
sequence_asym (some m) none tie back f h = cc
sequence_asym (some m) (some n) tie back f h = ground arith

sequence_trans :
    (l m n : Option ℕ) (lm mn ln : Bool)
    → (lm ≡ false → mn ≡ false → ln ≡ false)
    → sequence_after l m lm ≡ false
    → sequence_after m n mn ≡ false
    → sequence_after l n ln ≡ false
sequence_trans none none none lm mn ln f h k = f h k
sequence_trans none none (some n) lm mn ln f h k = cc
sequence_trans none (some m) n lm mn ln f h k = cc
sequence_trans (some l) none none lm mn ln f h k = refl
sequence_trans (some l) none (some n) lm mn ln f h k = cc
sequence_trans (some l) (some m) none lm mn ln f h k = refl
sequence_trans (some l) (some m) (some n) lm mn ln f h k = ground arith

pub drains_after-IsOrder : IsOrder drains_after
unfolding drains_after
drains_after-IsOrder = (
  λ x y h.
      sequence_asym x.queue_sequence y.queue_sequence (later_created x y) (later_created y x)
        (later_created-IsOrder.0 x y) h,
  λ x y z h k.
      sequence_trans x.queue_sequence y.queue_sequence z.queue_sequence (later_created x y)
        (later_created y z) (later_created x z) (later_created-IsOrder.1 x y z) h k,
)
