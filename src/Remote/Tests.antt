-- ===== src/Remote/Tests.antt =====
-- Runs of the requests to the driver below.
use inferno_windows.Prelude.{◌≡◌, true, ◌&&◌, ◌||◌, not, none, some, [], ◌∷◌, leb, ◌==◌, arith}
use inferno_windows.Status.{success, failure, nt_success}
use inferno_windows.Endpoints.{Endpoints}
use inferno_windows.Remote.{Io, Fetch, descriptor_ask, fetch, get_endpoint}
use inferno_windows.Remote.Pairs.{
  Base, Blocks, update_custom_endpoint_category, a2dp_create_custom_endpoint_minipair,
  delete_custom_endpoint_minipair,
}
use inferno_windows.Remote.Categories.{
  audio_pins, other_pins, recategorised, update_custom_endpoint_category_lem,
}
use inferno_windows.Remote.Owned.{Owes, OwesBlock, fetch-Owes}
use inferno_windows.Remote.OwnedPairs.{kept_block, a2dp_create-delete_leaks}
use inferno_windows.Remote.Inside.{all_inside, is_reached, get_endpoint-all_inside}

abbrev nothing : Endpoints
nothing = record {
  cache = record { entries = []; counts = λ y. 0 };
  registered = [];
  links = [];
  idle_requests = 0;
  idle_calls = [];
}

abbrev calm : Io
calm = record {
  adapter = nothing;
  power = record { devices = []; counts = λ y. 0; information = none };
  accesses = [];
}

abbrev short : Fetch
short = record {
  create = success;
  object = 7;
  probe = failure 0xC0000023;
  information = 2;
  memory = some 1;
  reuse = success;
  get = success;
}

fetch-Owes_example : OwesBlock (λ y. 0) (fetch descriptor_ask short calm)
fetch-Owes_example = fetch-Owes (λ y. 0) descriptor_ask short calm (λ y. omega arith)

get_endpoint-all_inside_example :
    all_inside (get_endpoint short calm).2.accesses ≡ (true && (not (is_reached short) || leb 4 2))
get_endpoint-all_inside_example = get_endpoint-all_inside short calm

update_custom_endpoint_category_lem_example :
    (nt_success (update_custom_endpoint_category 5 9 (5 ∷ 6 ∷ [])).0
      ≡ (leb (audio_pins 5 (5 ∷ 6 ∷ [])) 1 && (other_pins 5 (5 ∷ 6 ∷ []) == 1)))
    × (nt_success (update_custom_endpoint_category 5 9 (5 ∷ 6 ∷ [])).0 ≡ true
        → (update_custom_endpoint_category 5 9 (5 ∷ 6 ∷ [])).1 ≡ recategorised 5 9 (5 ∷ 6 ∷ []))
update_custom_endpoint_category_lem_example = update_custom_endpoint_category_lem 5 9 (5 ∷ 6 ∷ [])

abbrev base : Base
base = record { property_count = 2; categories = 5 ∷ 6 ∷ []; audio = 5; category = 9 }

abbrev blocks : Blocks
blocks = record {
  properties = some 1;
  pair = some 2;
  filter = some 3;
  pins = some 4;
  wave = some 5;
}

a2dp_create-delete_leaks_example :
    Owes
      (λ y. 0)
      (kept_block (a2dp_create_custom_endpoint_minipair base 1 blocks calm).1)
      (delete_custom_endpoint_minipair
        (a2dp_create_custom_endpoint_minipair base 1 blocks calm).1
        (a2dp_create_custom_endpoint_minipair base 1 blocks calm).2)
a2dp_create-delete_leaks_example =
    a2dp_create-delete_leaks (λ y. 0) base 1 blocks calm (λ y. omega arith)
