-- ===== src/Tests/Registry.antt =====
-- Runs of the registry of services, and its theorems at concrete events.
use telling.Layout.Parse.{
  parse_msg, skip_headers, parse_from, parse_start_line, choose_type, offsets, line_parts,
}
use telling.Layout.{set_start_line, line_length, set_elements}
use telling.Lines.{consume_line}
use telling.MsgError.{ok}
use telling.Prelude.{
  ◌≡◌, refl, Bool, true, false, none, some, List, [], ◌∷◌, Bytes, codes, same_text,
}
use telling.Prelude.Dictionary.{find, emplace, erase}
use telling.Registration.Refusal.{refused-undefined}
use telling.Registration.{alias_or_path, registration_request}
use telling.Services.Live.{is_live, is_some}
use telling.Services.Reachable.{Event, receives, disconnects, manages, run, managed-is_live}
use telling.Services.{
  Services, NewRoute, new_services, async_recv, answer, register_body, register_path, register,
  registered, unregister, pipe_event, disconnect, close_path, close_all, close_route, open_all,
  open_route, open_new, manage, respond_to, publish,
}
use telling.Tests.Maps.{entries, entries-MapLaws}
use telling.View.{view, body_string}
use telling.Writer.{MsgWriter, contains_newline}

abbrev enroll : Bytes
enroll = codes "POST *services Tell/0\n\n/a\n"

abbrev all_dial : NewRoute → Bool
all_dial spec = true

-- The second registration of the path is refused; the first pipe ends.
abbrev events : List Event
events =
    receives 1 10 enroll
    ∷ manages all_dial
    ∷ receives 2 20 enroll
    ∷ manages all_dial
    ∷ disconnects 10
    ∷ []

abbrev after : Services entries
after = record {
  map = [];
  registration = [];
  route_open = [];
  route_close = record { path = codes "/a" } ∷ [];
  replies = record { query = 1; status = 200 } ∷ record { query = 2; status = 409 } ∷ [];
  published = record { status = 201; path = codes "/a" } ∷ [];
}

run_of_events : run entries events (new_services entries) ≡ some after
unfolding find emplace erase same_text run new_services async_recv answer register_body
    register_path register registered unregister pipe_event disconnect close_path close_all
    close_route open_all open_route open_new manage respond_to publish view parse_msg skip_headers
    parse_from parse_start_line choose_type offsets line_parts set_start_line line_length
    set_elements consume_line body_string
run_of_events = refl

managed-is_live_example :
    is_live (codes "/a") (manage entries all_dial after).published false
    ≡ is_some (entries.find (codes "/a") (manage entries all_dial after).map)
managed-is_live_example =
    managed-is_live entries entries-MapLaws events after all_dial (codes "/a") run_of_events

abbrev one_route : Services entries
one_route = record {
  map = entries.emplace (codes "/a") (record { path = codes "/a" }) entries.empty_map;
  registration = (10, codes "/a") ∷ [];
  route_open = [];
  route_close = [];
  replies = [];
  published = [];
}

refused-undefined_example :
    (msg : Bytes) × (w : MsgWriter) × (registration_request (codes "/a") [] ≡ ok (some msg, w))
    × (run entries (receives 3 20 msg ∷ manages all_dial ∷ disconnects 20 ∷ []) one_route ≡ none)
unfolding find emplace same_text contains_newline alias_or_path
refused-undefined_example =
    refused-undefined entries (codes "/a") [] 3 20 one_route all_dial [] refl refl refl refl
