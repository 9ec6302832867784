-- ===== src/Examples/FwApp.antt =====
-- main of examples/fw_app/main.cpp with its FWContext: a configuration is loaded by a boot-up item of
-- the plain Application. The world is the documents that OnXmlConfigLoad, which only logs, was
-- called with; the XML reader and string joining are parameters.
use ltapp.Base.{◌≡◌, refl, ◌∙◌, true, List, [], ◌∷◌, ◌++◌, Option, none, some, String, opt_list}
use ltapp.Content.Bootup.{
  Application, with_item, with_xml_config, run, run_items, run-with_xml_config,
}

unfoldable pub on_xml_config_load : {D : Type 0} → D → List D → List D
on_xml_config_load doc docs = docs ++ doc ∷ []

unfoldable pub no_items : {W : Type 0} → Application W
no_items = record { bootup_tasks = [] }

module _ {D : Type 0} (load : String → Option D) (concat : String → String → String) where
  -- main, where `config` is FLAGS_config.
  unfoldable pub main : String → List D
  unfolding on_xml_config_load no_items
  main config =
      run (with_item (with_xml_config load concat config on_xml_config_load true) no_items) []

  -- OnXmlConfigLoad is called once, with the document, if the file can be loaded, and otherwise
  -- not at all.
  main_lem : (config : String) → main config ≡ opt_list (load config)
  unfolding main run run_items no_items on_xml_config_load
  main_lem config =
      run-with_xml_config load concat config on_xml_config_load true no_items [] ∙ go (load config)
    where
      go : (o : Option D) → elim o [ none ↦ [] | some d ↦ d ∷ [] ] ≡ opt_list o
      go none = refl
      go (some d) = refl
