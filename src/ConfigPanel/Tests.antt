-- ===== src/ConfigPanel/Tests.antt =====
-- The CONFIG tab on the sample topology.
use fast_share.Common.{◌≡◌, refl, some, ℕ, ◌*◌, ◌/◌}
use fast_share.Common.Text.{units, decimal, digits_value}
use fast_share.Common.Number.Hundredths.{hundredths}
use fast_share.Types.{ServerStatus}
use fast_share.Samples.{config, snapshot, topology}
use fast_share.ConfigPanel.{
  NumberText, WindowField, Receiver, SchedulerLabel, receiver, bound_address, preset_label,
  scheduler_label, first_field, type_draft, commit_window,
}

abbrev whole_texts : NumberText ℕ
whole_texts = record {
  text_of = λ n. decimal (n / 100);
  finite_of = λ t. some (digits_value t * 100);
}

address : bound_address config (some snapshot) ≡ units "127.0.0.1:5001"
unfolding bound_address
address = refl

stopped_receiver :
    receiver (some (record snapshot { server_status = ServerStatus.error })) ≡ Receiver.error
unfolding receiver
stopped_receiver = refl

-- A preset that is not among those listed is shown by its id.
tri_label : preset_label topology ≡ units "tri"
unfolding preset_label
tri_label = refl

tri_scheduler : scheduler_label topology ≡ SchedulerLabel.multipath_on
unfolding scheduler_label
tri_scheduler = refl

abbrev drafted : WindowField ℕ
drafted = type_draft whole_texts (units "2 50") (first_field whole_texts 10000)

committed : (commit_window whole_texts drafted).1 ≡ some 25000
unfolding commit_window type_draft digits_value
committed = refl

too_small :
    (commit_window whole_texts (type_draft whole_texts (units "3") drafted)).0.draft ≡ units "100"
unfolding commit_window type_draft digits_value decimal
too_small = refl
