-- ===== src/Content/Config.antt =====
-- ConfigManager of content/config/config_manager.h and .cc, and XmlConfig of content/config/lt_config.h
-- and .cc. Watchers are named by numbers; tinyxml2's reader is an argument.
use ltapp.Base.{
  ℕ, ◌≡◌, refl, ap, ◌∙◌, Bool, true, false, ◌||◌, ◌&&◌, if◌then◌else◌, is_some, List, [], ◌∷◌, ◌++◌,
  Option, none, some, String, str_eq, eq_iff, arith, ◌==◌,
}
use mathlib.Core.Path.{fun_ext}
use ltapp.Base.Int.{ℤ, pos}

-- watchers_ as the sets that its keys lead to, config_sources_ as the value of a key.
pub record ConfigManager : Type 0 where
  pub in_loop_thread : Bool
  pub watchers : String → ℕ → Bool
  pub config_sources : String → Option ℤ
  -- The tasks that add a watcher and wait in the loop.
  pub posted : List (String × ℕ)

-- map::insert keeps the value of a key that is there.
unfoldable pub insert_source : String → (String → Option ℤ) → String → Option ℤ
insert_source name sources key =
    if str_eq key name && not_there (sources name) then some (pos 10) else sources key
  where
    not_there : Option ℤ → Bool
    not_there none = true
    not_there (some _) = false

unfoldable pub insert_sources : List String → (String → Option ℤ) → String → Option ℤ
unfolding insert_source
insert_sources [] sources = sources
insert_sources (name ∷ names) sources = insert_sources names (insert_source name sources)

unfoldable pub new_manager : Bool → List String → ConfigManager
unfolding insert_sources
new_manager in_loop names = record {
  in_loop_thread = in_loop;
  watchers = λ _ _. false;
  config_sources = insert_sources names (λ _. none);
  posted = [];
}

unfoldable pub has_source : String → ConfigManager → Bool
has_source source m = is_some (m.config_sources source)

unfoldable pub add_watcher : String → ℕ → ConfigManager → ConfigManager
add_watcher source watcher m = record m {
  watchers = λ s w. (str_eq s source && w == watcher) || m.watchers s w;
}

unfoldable pub register_watcher : String → ℕ → ConfigManager → ConfigManager × Bool
unfolding add_watcher
register_watcher source watcher m =
    if m.in_loop_thread
    then (add_watcher source watcher m, true)
    else (record m { posted = m.posted ++ (source, watcher) ∷ [] }, true)

-- The loop runs the tasks that were posted to it.
unfoldable pub run_tasks : List (String × ℕ) → ConfigManager → ConfigManager
unfolding add_watcher
run_tasks [] m = m
run_tasks ((source, watcher) ∷ tasks) m = run_tasks tasks (add_watcher source watcher m)

unfoldable pub run_posted : ConfigManager → ConfigManager
unfolding run_tasks
run_posted m = run_tasks m.posted (record m { posted = [] })

-- GetConfigSource, with the value that ConfigSource() makes.
unfoldable pub get_config_source : {S : Type 0} → S → String → ConfigManager → S
unfolding has_source
get_config_source empty source m = if has_source source m then empty else empty

-- XmlConfig, over documents `D`.
pub record XmlConfig (D : Type 0) : Type 0 where
  pub config_doc : Option D
  pub xml_file : String

unfoldable pub new_config : {D : Type 0} → String → XmlConfig D
new_config file = record { config_doc = none; xml_file = file }

unfoldable pub xml_root : {D E : Type 0} → (D → Option E) → XmlConfig D → Option E
xml_root root_element c = elim c.config_doc [ none ↦ none | some d ↦ root_element d ]

-- LoadFile gives the document that it leaves, and whether it succeeded.
unfoldable pub load : {D : Type 0} → (String → D × Bool) → XmlConfig D → XmlConfig D × Bool
load load_file c =
    let (d, success) = load_file c.xml_file in (record c { config_doc = some d }, success)

run_tasks-append :
    (tasks : List (String × ℕ)) (source : String) (watcher : ℕ) (m : ConfigManager)
    → run_tasks (tasks ++ (source, watcher) ∷ []) m ≡ add_watcher source watcher (run_tasks tasks m)
unfolding run_tasks
run_tasks-append [] source watcher m = refl
run_tasks-append ((s, w) ∷ tasks) source watcher m =
    run_tasks-append tasks source watcher (add_watcher s w m)

register_watcher-away :
    (source : String) (watcher : ℕ) (m : ConfigManager)
    → m.in_loop_thread ≡ false
    → register_watcher source watcher m
      ≡ (record m { posted = m.posted ++ (source, watcher) ∷ [] }, true)
unfolding register_watcher
register_watcher-away source watcher m n = rw n refl

-- A watcher that another thread registers is added when the loop runs its tasks, after those that
-- were registered before it, as if it had been registered in the loop then.
register_watcher-posted :
    (source : String) (watcher : ℕ) (m : ConfigManager)
    → m.in_loop_thread ≡ false
    → run_posted (register_watcher source watcher m).0 ≡ add_watcher source watcher (run_posted m)
unfolding run_posted
register_watcher-posted source watcher m n =
    ap (λ r. run_posted r.0) (register_watcher-away source watcher m n)
    ∙ run_tasks-append m.posted source watcher (record m { posted = [] })

-- The order in which two watchers are added does not matter.
pub add_watcher-commutes :
    (s s' : String) (w w' : ℕ) (m : ConfigManager)
    → add_watcher s w (add_watcher s' w' m) ≡ add_watcher s' w' (add_watcher s w m)
unfolding add_watcher
add_watcher-commutes s s' w w' m =
    ap (λ f. record m { watchers = f })
      (fun_ext (λ k.
        fun_ext (λ v. or_swap (str_eq k s && v == w) (str_eq k s' && v == w') (m.watchers k v))))
  where
    or_swap : (a b c : Bool) → (a || (b || c)) ≡ (b || (a || c))
    or_swap true true c = refl
    or_swap true false c = refl
    or_swap false true c = refl
    or_swap false false c = refl

abbrev pub contains : String → List String → Bool
contains name [] = false
contains name (n ∷ names) = str_eq name n || contains name names

is_some-insert_source :
    (name key : String) (f : String → Option ℤ)
    → is_some (insert_source name f key) ≡ (str_eq key name || is_some (f key))
unfolding insert_source
is_some-insert_source name key f = go (str_eq key name) refl (f name) refl
  where
    go :
        (b : Bool)
        → str_eq key name ≡ b
        → (o : Option ℤ) → f name ≡ o
        → is_some (insert_source name f key) ≡ (str_eq key name || is_some (f key))
    go false e o h = rw (insert_source, e) refl
    go true e none h = rw (insert_source, e, h) refl
    go true e (some v) h = rw (insert_source, e, h) (ap is_some (ap f ((eq_iff key name).0 e) ∙ h))

insert_sources-contains :
    (names : List String) (key : String) (f : String → Option ℤ)
    → is_some (insert_sources names f key) ≡ (is_some (f key) || contains key names)
unfolding insert_sources
insert_sources-contains [] key f = ground arith
insert_sources-contains (n ∷ names) key f =
    rw (insert_sources-contains names key (insert_source n f), is_some-insert_source n key f)
      (swap (str_eq key n) (is_some (f key)) (contains key names))
  where
    swap : (a b c : Bool) → ((a || b) || c) ≡ (b || (a || c))
    swap true true c = refl
    swap true false c = refl
    swap false b c = refl

-- A new manager has exactly the sources that it was given the names of.
has_source-new_manager :
    (in_loop : Bool) (names : List String) (key : String)
    → has_source key (new_manager in_loop names) ≡ contains key names
unfolding has_source new_manager
has_source-new_manager in_loop names key = insert_sources-contains names key (λ _. none)
