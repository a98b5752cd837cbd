-- ===== src/Store/Change/Keeps.antt =====
-- Each change of the run and event tables keeps them well formed.
use yjdlagent.Store.Change.Keys.{
  SameKey-advance, run_of-SameKey, has_id-SameKey, unique_ids-append, unique_messages-append,
}
use yjdlagent.Store.Change.Numbering.{
  last_sequence-reassign, last_sequence-create, ledger-advance, endings-create, endings-reassign,
  endings-advance,
}
use yjdlagent.Store.Change.Order.{
  IsSound-open, IsSound-advance, IsSound-reassign, DependsBack-update, DependsBack-snoc,
}
use yjdlagent.Prelude.{Bool, List, [], ◌∷◌, All-append}
use yjdlagent.Table.{update}
use yjdlagent.Table.Laws.{row_count-update, All-update}
use yjdlagent.Store.Schema.{Run, Event, has_id}
use yjdlagent.Store.Create.{run_of}
use yjdlagent.Store.Ledger.{advance}
use yjdlagent.Store.Change.{IsSound, WellFormed, Change, stays, creates, reassigns, appends}

-- Every change keeps the tables well formed.
pub Change-WellFormed :
    {grows : Bool} {rs rs' : List Run} {es es' : List Event}
    → Change grows rs es rs' es'
    → WellFormed rs es
    → WellFormed rs' es'
unfolding update
Change-WellFormed stays w = w
Change-WellFormed {rs} {es = es} (creates r g new live zero_seq dep) w = record {
  unique_ids = unique_ids-append rs r new w.unique_ids;
  unique_messages = unique_messages-append rs r new w.unique_messages;
  endings = λ k. rw (endings-create rs r live k) (w.endings k);
  ledger = λ k. rw (last_sequence-create rs r zero_seq k) (w.ledger k);
  sound = All-append IsSound rs (r ∷ []) w.sound (IsSound-open r live, tt);
  depends_back = DependsBack-snoc rs [] r w.depends_back dep;
}
Change-WellFormed {rs} {es = es} (reassigns p f h) w = record {
  unique_ids = λ k.
      rw (row_count-update p (has_id k) f (λ r. has_id-SameKey k (h.same_key r)) rs)
        (w.unique_ids k);
  unique_messages = λ s m.
      rw (row_count-update p (run_of s m) f (λ r. run_of-SameKey s m (h.same_key r)) rs)
        (w.unique_messages s m);
  endings = λ k. rw (endings-reassign p f rs h.same_key h.stays_open h.open_only k) (w.endings k);
  ledger = λ k. rw (last_sequence-reassign p f rs h.same_key h.same_sequence k) (w.ledger k);
  sound = IsSound-reassign p f h.stays_open rs h.open_only w.sound;
  depends_back = DependsBack-update p f h.same_key rs [] w.depends_back;
}
Change-WellFormed {rs} {es = es} (appends now event_name payload route run found live) w =
    let key = SameKey-advance now event_name payload route in
    let f = advance now event_name payload route in
    record {
      unique_ids = λ k.
          rw (row_count-update (has_id run.run_id) (has_id k) f (λ r. has_id-SameKey k (key r)) rs)
            (w.unique_ids k);
      unique_messages = λ s m.
          rw
            (row_count-update (has_id run.run_id) (run_of s m) f (λ r. run_of-SameKey s m (key r))
              rs)
            (w.unique_messages s m);
      ledger = ledger-advance now event_name payload route run rs found es w.ledger;
      endings = endings-advance now event_name payload route run rs found live es w.endings;
      sound =
          All-update IsSound (has_id run.run_id) f
            (λ r _. IsSound-advance now event_name payload route r) rs w.sound;
      depends_back = DependsBack-update (has_id run.run_id) f key rs [] w.depends_back;
    }
