-- ===== src/Examples/LtApp.antt =====
-- The application of examples/lt_app (app_context_impl.cc and main.cpp): its boot tasks load a
-- configuration and look for an element of it, and it runs in the application shell. tinyxml2 is the
-- section's parameters: documents, elements, the reader, the root, and whether an element has the
-- child named by FLAGS_client.
mod Tests
use ltapp.Base.{
  ◌≡◌, ◌≢◌, refl, sym, ap, ◌∙◌, Bool, true, false, List, [], ◌∷◌, ◌++◌, Option, none, some, String,
  arith, Option-cases, inl, inr,
}
use ltapp.Outcome.{Outcome, ok, abort, check_some, ◌>>=◌}
use ltapp.Content.Config.{XmlConfig, new_config, xml_root, load}
use ltapp.Shell.Tasks.{
  BootTask, Application, sequence_type, async_run_type, async_coro_type, new_task, prepare, cleanup,
  is_empty,
}
use ltapp.Shell.Sequence.{Action, call_tasks}
use ltapp.Shell.Schedule.{failing}
use ltapp.Shell.Lifecycle
use ltapp.Shell.Lifecycle.{Process, Reach}
use ltapp.Shell.Lifecycle.Calls.{called-booted}

pub record AppContextImpl (D : Type 0) : Type 0 where
  pub config : XmlConfig D

unfoldable pub no_tasks : Application
no_tasks = record { on_start = []; on_finish = [] }

unfoldable pub prepare_all : List BootTask → Application → Application
unfolding prepare
prepare_all [] a = a
prepare_all (item ∷ items) a = prepare_all items (prepare item a)

-- The tasks of main: those of Prepare with what they return, and those of Cleanup.
unfoldable pub application : List BootTask → Application
unfolding new_task cleanup prepare_all no_tasks
application prepared =
    let four = prepare_all prepared no_tasks in
    let five = cleanup (new_task "clean kAsyncCoroType" true async_coro_type) four in
    let six = cleanup (new_task "clean kSequenceType" false sequence_type) five in
    cleanup (new_task "clean kAsyncRunType" true async_run_type) six

module _ {D E : Type 0} (load_file : String → D × Bool) (root_element : D → Option E)
    (has_client : E → Bool) where
  unfoldable pub new : String → AppContextImpl D
  unfolding new_config
  new config = record { config = new_config config }

  unfoldable pub init_config : AppContextImpl D → AppContextImpl D × Bool
  unfolding load
  init_config c =
      let (config, loaded) = load load_file c.config in (record { config = config }, loaded)

  -- CHECK(root)
  unfoldable pub init_client : AppContextImpl D → Outcome Bool
  unfolding xml_root check_some
  init_client c = check_some (xml_root root_element c.config) λ root. ok (has_client root)

  -- InitCoroPrepare and InitAsyncPrepare.
  unfoldable pub init_prepare : AppContextImpl D → Outcome (AppContextImpl D × Bool)
  init_prepare c = ok (c, true)

  unfoldable pub actions : List (Action (AppContextImpl D))
  unfolding init_config init_client init_prepare
  actions =
      record { name = "config"; task = λ c. ok (init_config c); exc_type = sequence_type }
      ∷ record {
        name = "client";
        task = λ c. (do has_clients ← init_client c; ok (c, has_clients));
        exc_type = sequence_type;
      }
      ∷ record { name = "coro"; task = init_prepare; exc_type = async_coro_type }
      ∷ record { name = "async"; task = init_prepare; exc_type = async_run_type }
      ∷ []

  -- The application with its tasks, which RunBootupTask calls.
  unfoldable pub boot : String → Outcome Application
  unfolding new actions application call_tasks
  boot config_file = do
    (c, prepared) ← call_tasks actions (new config_file)
    ok (application prepared)

  abbrev Document : String → D
  Document file = (load_file file).0

  abbrev prepared_of : Bool → Bool → List BootTask
  prepared_of configured has_clients =
      new_task "config" configured sequence_type
      ∷ new_task "client" has_clients sequence_type
      ∷ new_task "coro" true async_coro_type
      ∷ new_task "async" true async_run_type
      ∷ []

  none_fails :
      (configured has_clients : Bool)
      → is_empty (failing (application (prepared_of configured has_clients)).on_start) ≡ true
      → (configured ≡ true) × (has_clients ≡ true)
  unfolding application failing prepare_all prepare cleanup new_task no_tasks
  none_fails true true h = (refl, refl)
  none_fails true false h = cc
  none_fails false has_clients h = cc

  abbrev client_tasks : Bool → List BootTask
  client_tasks has_clients =
      new_task "client" has_clients sequence_type
      ∷ new_task "coro" true async_coro_type
      ∷ new_task "async" true async_run_type
      ∷ []

  boot_lem :
      (file : String) (app : Application)
      → boot file ≡ ok app
      → (root : E) × (root_element (load_file file).0 ≡ some root)
        × (app ≡ application (prepared_of (load_file file).1 (has_client root)))
  unfolding boot call_tasks actions init_config init_client init_prepare new new_config load
      xml_root check_some
  boot_lem file app b = go (root_element (load_file file).0) refl b
    where
      after : AppContextImpl D
      after = (init_config (new file)).0

      configured : Bool
      configured = (load_file file).1

      pair : Bool → Outcome (AppContextImpl D × Bool)
      pair x = ok (after, x)

      client : AppContextImpl D × Bool → Outcome (AppContextImpl D × List BootTask)
      client r = ok (r.0, client_tasks r.1)

      config : AppContextImpl D × List BootTask → Outcome (AppContextImpl D × List BootTask)
      config t = ok (t.0, new_task "config" configured sequence_type ∷ t.1)

      go :
          (o : Option E)
          → root_element (load_file file).0 ≡ o
          → check_some o (λ root. ok (has_client root))
              >>= pair
              >>= client
              >>= config
              >>= (λ t. ok (application t.1))
            ≡ ok app
          → (root : E) × (root_element (load_file file).0 ≡ some root)
            × (app ≡ application (prepared_of configured (has_client root)))
      go none e h = cc
      go (some root) e h = (root, e, cc)

  -- Whatever the interleaving: the application's OnStart is called only if its configuration
  -- was loaded and the root of the document has the element for the clients.
  pub started-configured :
      (file : String) (app : Application) (p : Process)
      → boot file ≡ ok app
      → Reach app (Lifecycle.begin app) p
      → p.calls ≢ []
      → ((load_file file).1 ≡ true)
        × ((root : E) × (root_element (load_file file).0 ≡ some root) × (has_client root ≡ true))
  started-configured file app p b r h =
      let (root, e, f) = boot_lem file app b in
      let (loaded, found) =
        none_fails (load_file file).1 (has_client root)
          (ap (λ a. is_empty (failing a.on_start)) (sym f) ∙ (called-booted app p r h).1) in
      (loaded, (root, e, found))
