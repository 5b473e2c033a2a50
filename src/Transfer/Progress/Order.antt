-- ===== src/Transfer/Progress/Order.antt =====
-- The order of events that include/beamdrop/transfer/Progress.hpp promises.
use beam_drop.Prelude.{
  ℕ, zero, suc, ◌+◌, ◌≡◌, ap, sym, ◌∙◌, List, [], ◌∷◌, ◌++◌, append_assoc, append-nil,
}
use beam_drop.Transfer.Progress.{
  ProgressEvent, Stage, task_started, transferring, file_completed, task_completed,
}

-- An event of a file, the one with this index of so many.
pub record IsAt (stage : Stage) (index count : ℕ) (event : ProgressEvent) : Type 0 where
  pub stage_is : event.stage ≡ stage
  pub index_is : event.file_index ≡ index
  pub count_is : event.file_count ≡ count

-- Any number of events of bytes, and one for the file at the end.
pub data OneFile (index count : ℕ) : List ProgressEvent → Type 0 where
  moved :
      {event : ProgressEvent} {events : List ProgressEvent}
      → IsAt transferring index count event
      → OneFile index count events
      → OneFile index count (event ∷ events)
  done :
      {event : ProgressEvent}
      → IsAt file_completed index count event
      → OneFile index count (event ∷ [])

-- The events of so many files from an index on, one file after another.
pub data Files (count : ℕ) : ℕ → ℕ → List ProgressEvent → Type 0 where
  no_file : {index : ℕ} → Files count index zero []
  next_file :
      {index n : ℕ} {here later : List ProgressEvent}
      → OneFile index count here
      → Files count (index + 1) n later
      → Files count index (suc n) (here ++ later)

-- One event at the start, those of all the files, one at the end.
pub record IsTask (count : ℕ) (events : List ProgressEvent) : Type 0 where
  pub first : ProgressEvent
  pub middle : List ProgressEvent
  pub last : ProgressEvent
  pub events_are : events ≡ first ∷ (middle ++ last ∷ [])
  pub first_at : IsAt task_started 0 count first
  pub files : Files count 1 count middle
  pub last_at : IsAt task_completed count count last

module _ {S : Type 0} (events_of : S → List ProgressEvent) where
  -- From `s` to `t`, these events were reported.
  abbrev pub Reports : List ProgressEvent → S → S → Type 0
  Reports events s t = events_of t ≡ events_of s ++ events

  pub no_report : (s t : S) → events_of t ≡ events_of s → Reports [] s t
  no_report s t e = e ∙ sym (append-nil (events_of s))

  pub Reports-append :
      (a b : List ProgressEvent) (s t u : S) → Reports a s t → Reports b t u → Reports (a ++ b) s u
  Reports-append a b s t u p q = q ∙ ap (λ x. x ++ b) p ∙ append_assoc (events_of s) a b

  pub report_after :
      (a : List ProgressEvent) (s t u : S)
      → events_of t ≡ events_of s
      → Reports a t u
      → Reports a s u
  report_after a s t u e p = p ∙ ap (λ x. x ++ a) e

-- Events of bytes, in front of those of their file.
pub data Moves (index count : ℕ) : List ProgressEvent → Type 0 where
  no_move : Moves index count []
  one_move :
      {event : ProgressEvent} {events : List ProgressEvent}
      → IsAt transferring index count event
      → Moves index count events
      → Moves index count (event ∷ events)

pub Moves-append :
    {index count : ℕ} {a b : List ProgressEvent}
    → Moves index count a
    → Moves index count b
    → Moves index count (a ++ b)
Moves-append no_move q = q
Moves-append (one_move h p) q = one_move h (Moves-append p q)

pub OneFile-append :
    {index count : ℕ} {a : List ProgressEvent} {event : ProgressEvent}
    → Moves index count a
    → IsAt file_completed index count event
    → OneFile index count (a ++ event ∷ [])
OneFile-append no_move h = done h
OneFile-append (one_move m p) h = moved m (OneFile-append p h)
