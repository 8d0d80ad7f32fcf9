-- ===== src/AgentDrawer/Examples.antt =====
-- One channel's drawer on concrete input, and the theorems applied to it.
use tea_desktop.Base.{
  ℕ, ◌≤◌, ◌≡◌, refl, true, false, List, [], ◌∷◌, ◌++◌, none, some, arith, if◌then◌else◌, length,
  any,
}
use Prim.Native.String.{String}
use tea_desktop.Base.Map
use tea_desktop.Base.Text.{Text, codes, text_eq}
use tea_desktop.AgentDrawer.Store.{
  AgentDrawerStore, AgentDrawerChannelState, ChannelBinding, ChannelSourceInput, source_active,
  Action, prepares, begins, completes, creating, index, recent, staged, same_source, keep_last,
  max_sources, new_store, cancels,
}
use tea_desktop.AgentDrawer.Store as Store
use tea_desktop.AgentDrawer.Phases.{AreKept, run-AreKept}
use tea_desktop.AgentDrawer.Bindings.{step-elsewhere}
use tea_desktop.AgentDrawer.Cancelled.{cancelled_key_refused}
use tea_desktop.AgentDrawer.Creation.{Holds, begin_creation-complete_creation, staged-staged}

abbrev serialize : Text → Text → Text → Text
serialize a b c = a ++ (44 ∷ b) ++ (44 ∷ c)

abbrev uuid : ℕ → Text
uuid n = n ∷ []

abbrev channel : String → ChannelBinding
channel name = record {
  transport_id = codes "t";
  account_ref = codes "me";
  channel_ref = codes name;
}

abbrev actions : List Action
actions =
    prepares (channel "x") (some (codes "agent"))
    ∷ begins (channel "x")
    ∷ completes (channel "x") (uuid 0) (codes "chat")
    ∷ []

run-AreKept_example : AreKept serialize uuid (Store.run serialize uuid new_store actions)
run-AreKept_example = run-AreKept serialize uuid new_store actions tt

abbrev waiting : AgentDrawerStore
waiting = Store.prepare serialize uuid new_store (channel "x") (some (codes "agent"))

abbrev begun : AgentDrawerStore
begun = (Store.begin_creation serialize uuid waiting (channel "x")).0

step-elsewhere_example :
    Map.get (codes "t,me,x") (Store.step serialize uuid waiting (begins (channel "y"))).states
    ≡ Map.get (codes "t,me,x") waiting.states
unfolding text_eq
step-elsewhere_example =
    step-elsewhere serialize uuid (codes "t,me,x") waiting (begins (channel "y")) refl

begins_first : Store.begin_creation serialize uuid waiting (channel "x") ≡ (begun, some (uuid 0))
unfolding Store.prepare Store.begin_creation Store.assign Store.ensure_state Map.get Map.set text_eq
begins_first = refl

begin_creation-complete_creation_example :
    (state : AgentDrawerChannelState) × (state.phase ≡ creating)
    × ((Store.complete_creation serialize uuid begun (channel "x") (uuid 1) (codes "chat")).1
        ≡ text_eq (uuid 0) (uuid 1))
    × Holds serialize uuid
        (Store.complete_creation serialize uuid begun (channel "x") (uuid 1) (codes "chat")).0
        (channel "x")
        (if text_eq (uuid 0) (uuid 1) then Store.selected (codes "chat") state else state)
begin_creation-complete_creation_example =
    begin_creation-complete_creation serialize uuid waiting begun (channel "x") (uuid 0) (uuid 1)
      (codes "chat") begins_first

uuid_distinct : (n m : ℕ) → uuid n ≡ uuid m → n ≡ m
uuid_distinct n m e = ground arith

abbrev starting : List Action
starting = prepares (channel "x") (some (codes "agent")) ∷ []

abbrev starting_again : List Action
starting_again = prepares (channel "x") (some (codes "agent")) ∷ begins (channel "x") ∷ []

begins_from_new :
    Store.begin_creation serialize uuid (Store.run serialize uuid new_store starting) (channel "x")
    ≡ (begun, some (uuid 0))
unfolding Store.run Store.step Store.prepare Store.begin_creation Store.assign Store.ensure_state
    Map.get Map.set text_eq
begins_from_new = refl

-- The draft is cancelled, a second creation begins, and the first one's answer comes late.
abbrev begun_again : AgentDrawerStore
begun_again =
    Store.run serialize uuid
      (Store.cancel_draft serialize uuid (Store.run serialize uuid begun []) (channel "x"))
      starting_again

cancelled_key_refused_example :
    Store.complete_creation serialize uuid begun_again (channel "x") (uuid 0) (codes "chat")
    ≡ ((Store.ensure_state serialize uuid begun_again (channel "x")).0, false)
cancelled_key_refused_example =
    cancelled_key_refused serialize uuid uuid_distinct starting [] starting_again (channel "x")
      begun (uuid 0) (codes "chat") begins_from_new

abbrev source : ChannelSourceInput
source = record {
  message_ref = record {
    channel_ref = codes "x";
    message_client_id = codes "m";
    message_server_id = none;
  };
  sender_name = codes "Ann";
  sent_at = 1;
  sent_by_current_user = false;
  text = codes "Hi";
  captured_at = 2;
  state = source_active;
}

staged-staged_example :
    (staged source (staged source []) ≡ staged source [])
    × (length (staged source []) ≤ max_sources)
    × (any (λ value. same_source value source) (staged source []) ≡ true)
staged-staged_example = staged-staged source [] (omega arith)
