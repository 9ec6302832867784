-- ===== src/Content/Tests.antt =====
-- The plain application and the table of watchers on concrete data, and the theorems at them.
use ltapp.Base.{◌≡◌, refl, Bool, true, false, List, [], ◌∷◌, ◌++◌, Option, some, String}
use ltapp.Base.Int.{pos}
use ltapp.Content.Bootup.{
  Application, BootupItem, sequence_type, async_run_type, run, with_item, with_xml_config,
  run-with_xml_config,
}

-- The world is the list of what was done.
abbrev note_item : String → Bool → BootupItem (List String)
note_item name sequence = record {
  name = name;
  exc_type = elim sequence [ true ↦ sequence_type | false ↦ async_run_type ];
  task = λ w. (true, w ++ name ∷ []);
  status = pos 0;
  message = "";
}

abbrev app : Application (List String)
app = record { bootup_tasks = note_item "a" true ∷ note_item "b" false ∷ note_item "c" true ∷ [] }

runs_two : run app [] ≡ "a" ∷ "c" ∷ []
unfolding run
runs_two = refl

abbrev read_file : String → Option String
read_file file = some "doc"

abbrev keep_doc : String → List String → List String
keep_doc d w = w ++ d ∷ []

run-with_xml_config_example :
    run (with_item (with_xml_config read_file (λ a b. a) "app.xml" keep_doc true) app) []
    ≡ run app [] ++ "doc" ∷ []
run-with_xml_config_example =
    run-with_xml_config read_file (λ a b. a) "app.xml" keep_doc true app []
