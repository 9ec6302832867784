-- ===== src/Content/Bootup.antt =====
-- Application of content/application.h and .cc, and WithXMLConfig of content/config_loader.cc. A task
-- acts on a world `W`; the XML reader, tinyxml2, is an argument.
use ltapp.Base.{
  ◌≡◌, refl, ◌∙◌, Bool, true, false, if◌then◌else◌, List, [], ◌∷◌, ◌++◌, Option, none, some, String,
}
use ltapp.Base.Int.{ℤ, pos}

pub data ExcRunType : Type 0 where
  sequence_type async_run_type async_coro_type : ExcRunType

pub record BootupItem (W : Type 0) : Type 0 where
  pub name : String
  pub exc_type : ExcRunType
  pub task : W → Bool × W
  pub status : ℤ  -- std::int32_t
  pub message : String

pub record Application (W : Type 0) : Type 0 where
  pub bootup_tasks : List (BootupItem W)

abbrev pub is_sequence : ExcRunType → Bool
is_sequence sequence_type = true
is_sequence async_run_type = false
is_sequence async_coro_type = false

module _ {W : Type 0} where
  unfoldable pub with_item : BootupItem W → Application W → Application W
  with_item item a = record { bootup_tasks = a.bootup_tasks ++ item ∷ [] }

  -- One round of the loop of Run: `success` is written and not read.
  unfoldable pub run_item : BootupItem W → W → W
  run_item item w = if is_sequence item.exc_type then (item.task w).1 else w

  unfoldable pub run_items : List (BootupItem W) → W → W
  unfolding run_item
  run_items [] w = w
  run_items (item ∷ items) w = run_items items (run_item item w)

  -- Run, up to WaitLoopEnd.
  unfoldable pub run : Application W → W → W
  unfolding run_items
  run a w = run_items a.bootup_tasks w

  unfoldable pub xml_task : {D : Type 0} → (String → Option D) → String → (D → W → W) → W → Bool × W
  xml_task load file callback w = elim (load file) [
    | none ↦ (false, w)
    | some d ↦ (true, callback d w)
  ]

  unfoldable pub with_xml_config :
      {D : Type 0}
      → (String → Option D)
      → (String → String → String)
      → String
      → (D → W → W)
      → Bool
      → BootupItem W
  unfolding xml_task
  with_xml_config load concat file callback sync = record {
    name = concat "load config:" file;
    exc_type = if sync then sequence_type else async_run_type;
    task = xml_task load file callback;
    status = pos 0;
    message = "";
  }

  run_items-append :
      (items : List (BootupItem W)) (item : BootupItem W) (w : W)
      → run_items (items ++ item ∷ []) w ≡ run_item item (run_items items w)
  unfolding run_items
  run_items-append [] item w = refl
  run_items-append (x ∷ items) item w = run_items-append items item (run_item x w)

  task_world :
      {D : Type 0} (callback : D → W → W) (w : W) (o : Option D)
      → (elim o as (λ _. Bool × W) [ none ↦ (false, w) | some d ↦ (true, callback d w) ]).1
        ≡ elim o [ none ↦ w | some d ↦ callback d w ]
  task_world callback w none = refl
  task_world callback w (some d) = refl

  -- An item of WithXMLConfig, added last: Run first does what it does without it. Then, if
  -- the item is synchronous and the file can be read, Run calls back on its document; if the
  -- file cannot be read, or the item is not synchronous, nothing more happens.
  pub run-with_xml_config :
      {D : Type 0} (load : String → Option D) (concat : String → String → String) (file : String)
      (callback : D → W → W) (sync : Bool) (a : Application W) (w : W)
      → run (with_item (with_xml_config load concat file callback sync) a) w ≡ (
          if sync
          then elim (load file) [ none ↦ run a w | some d ↦ callback d (run a w) ]
          else run a w)
  unfolding xml_task run with_item with_xml_config run_item
  run-with_xml_config load concat file callback true a w =
      run_items-append a.bootup_tasks _ w
      ∙ task_world callback (run_items a.bootup_tasks w) (load file)
  run-with_xml_config load concat file callback false a w = run_items-append a.bootup_tasks _ w
