-- ===== src/Ui/Layout/Reload.antt =====
-- A reload of the page: what frontend/astiango-hub-ui/src/store/modules/layout.ts reads of the storage
-- that its mutations wrote.
use astiango_hub.Common.{
  ℕ, ◌+◌, Bool, true, false, ◌≡◌, ◌≢◌, refl, sym, ap, ◌∙◌, inl, inr, Option, none, some, List, [],
  ◌∷◌, Text, eq_text, Option-cases,
}
use astiango_hub.Common.Options.{bind-some}
use mathlib.Core.Option.{some-injective, map as map_option}
use mathlib.Core.Path.{subst}
use astiango_hub.Ui.Menu.{MenuItem}
use astiango_hub.Ui.Layout.{
  Tab, LocalStorage, TabsJson, LayoutStoreState, Page, initial_state, stored_or, boolean_text,
  default_boolean, default_tabs, default_active_tab_id, default_max_tab_id,
  default_chatbot_sidebar_width,
}
use astiango_hub.Ui.Layout.Numbers.{
  Number, natural, decimal, number_text, truncated, read_whole, parse_int, read_whole-decimal,
  parse_int-number_text, parse_int-truncated,
}
use astiango_hub.Ui.Layout.Mutations
use astiango_hub.Ui.Layout.Session.{Mutation, commit, commits, open_page}

-- What a reload makes of a state: the tabs, the active tab, the last identifier, the sidebar and the
-- visibility of the chatbot are kept, the width is cut to a whole number, and the rest is new.
abbrev pub reloaded : List MenuItem → LayoutStoreState → LayoutStoreState
reloaded items s = record {
  sidebar_collapsed = s.sidebar_collapsed;
  menu_items = items;
  active_tab_id = s.active_tab_id;
  max_tab_id = s.max_tab_id;
  tabs = s.tabs;
  dragging_tab = none;
  target_tab = none;
  is_tabs_dragging = false;
  nav_visible_fn = some (λ _. true);
  detail_tab_visible_fn = λ _ _. true;
  action_visible_fn = λ _ _. true;
  chatbot_sidebar_visible = s.chatbot_sidebar_visible;
  chatbot_sidebar_width = truncated s.chatbot_sidebar_width;
}

module _ {A : Type 0} (d : A) (read : Text → A) where
  stored_or-IsSome : (t : Text) → t ≢ [] → stored_or d read (some t) ≡ read t
  stored_or-IsSome [] h = absurd (h refl)
  stored_or-IsSome (c ∷ cs) h = refl

default_boolean-boolean_text : (b : Bool) → default_boolean (some (boolean_text b)) ≡ b
unfolding eq_text
default_boolean-boolean_text true = refl
default_boolean-boolean_text false = refl

decimal-IsSome : (n : ℕ) → decimal n ≢ []
unfolding read_whole
decimal-IsSome n = λ e. cc (rw e at (read_whole-decimal n))

default_active_tab_id-decimal : (n : ℕ) → default_active_tab_id (some (decimal n)) ≡ some (some n)
default_active_tab_id-decimal n =
    stored_or-IsSome (some none) (λ t. map_option some (read_whole t)) (decimal n)
      (decimal-IsSome n)
    ∙ ap (λ (o : Option ℕ). map_option some o) (read_whole-decimal n)

default_max_tab_id-decimal : (n : ℕ) → default_max_tab_id (some (decimal n)) ≡ some n
default_max_tab_id-decimal n =
    stored_or-IsSome (some 0) read_whole (decimal n) (decimal-IsSome n) ∙ read_whole-decimal n

number_text-IsSome : (x : Number) → number_text x ≢ []
unfolding parse_int
number_text-IsSome x = λ e. cc (rw e at (parse_int-number_text x))

default_width-number_text :
    (x : Number) → default_chatbot_sidebar_width (some (number_text x)) ≡ some (truncated x)
default_width-number_text x =
    stored_or-IsSome (some (natural 350)) parse_int (number_text x) (number_text-IsSome x)
    ∙ parse_int-number_text x

default_width-truncated :
    (slot : Option Text) (x : Number)
    → default_chatbot_sidebar_width slot ≡ some x
    → truncated x ≡ x
default_width-truncated none x e = rw (sym (some-injective (natural 350) x e)) refl
default_width-truncated (some []) x e = rw (sym (some-injective (natural 350) x e)) refl
default_width-truncated (some (c ∷ cs)) x e = parse_int-truncated (c ∷ cs) x e

module _ (json : TabsJson) where
  -- The storage has the texts of a state.
  abbrev IsSaved : LocalStorage → LayoutStoreState → Type 0
  IsSaved storage s =
      (default_tabs json storage.tabs ≡ some s.tabs)
      × (default_active_tab_id storage.active_tab_id ≡ some s.active_tab_id)
      × (default_max_tab_id storage.max_tab_id ≡ some s.max_tab_id)
      × (default_boolean storage.sidebar_collapsed ≡ s.sidebar_collapsed)
      × (default_boolean storage.chatbot_sidebar_visible ≡ s.chatbot_sidebar_visible)
      × (default_chatbot_sidebar_width storage.chatbot_sidebar_width
          ≡ some (truncated s.chatbot_sidebar_width))

  initial_state-IsSaved :
      (items : List MenuItem) (storage : LocalStorage) (s : LayoutStoreState)
      → initial_state json items storage ≡ some s
      → IsSaved storage s
  unfolding initial_state
  initial_state-IsSaved items storage s e =
      let (active, (has_active, e₁)) = bind-some _ _ s e in
      let (maximum, (has_maximum, e₂)) = bind-some _ _ s e₁ in
      let (tabs, (has_tabs, e₃)) = bind-some _ _ s e₂ in
      let (width, (has_width, e₄)) = bind-some _ _ s e₃ in
      let same = some-injective _ s e₄ in
      let whole = default_width-truncated storage.chatbot_sidebar_width width has_width in
      (
        has_tabs ∙ ap (λ (t : LayoutStoreState). some t.tabs) same,
        has_active ∙ ap (λ (t : LayoutStoreState). some t.active_tab_id) same,
        has_maximum ∙ ap (λ (t : LayoutStoreState). some t.max_tab_id) same,
        ap (λ (t : LayoutStoreState). t.sidebar_collapsed) same,
        ap (λ (t : LayoutStoreState). t.chatbot_sidebar_visible) same,
        has_width
            ∙ ap some (sym whole)
            ∙ ap (λ (t : LayoutStoreState). some (truncated t.chatbot_sidebar_width)) same,
      )

  IsSaved-initial_state :
      (items : List MenuItem) (storage : LocalStorage) (s : LayoutStoreState)
      → IsSaved storage s
      → initial_state json items storage ≡ some (reloaded items s)
  unfolding initial_state
  IsSaved-initial_state items storage s (tabs, active, maximum, collapsed, visible, width) =
      rw (active, maximum, tabs, width, collapsed, visible) refl

  open_page-IsSaved :
      (items : List MenuItem) (storage : LocalStorage) (p : Page)
      → open_page json items storage ≡ some p
      → IsSaved p.storage p.state
  unfolding open_page
  open_page-IsSaved items storage p e = elim (Option-cases (initial_state json items storage)) [
    | inl broken ↦ absurd (cc (rw broken at e))
    | inr (s, loaded) ↦
        let same = some-injective _ p (rw loaded at e) in
        subst (λ (q : Page). IsSaved q.storage q.state) same
          (initial_state-IsSaved items storage s loaded)
  ]

  module _ (saves : (ts : List Tab) → default_tabs json (some (json.stringify ts)) ≡ some ts) where
    push-IsSaved :
        (id : Option ℕ) (tab : Tab) (p : Page)
        → IsSaved p.storage p.state
        → let p' = Mutations.push_with json id tab p in IsSaved p'.storage p'.state
    push-IsSaved none tab p (_, a, _, b, c, d) =
        (saves _, a, default_max_tab_id-decimal (p.state.max_tab_id + 1), b, c, d)
    push-IsSaved (some id) tab p (_, a, _, b, c, d) =
        (saves _, a, default_max_tab_id-decimal p.state.max_tab_id, b, c, d)

    splice-IsSaved :
        (i : Option ℕ) (p : Page)
        → IsSaved p.storage p.state
        → let p' = Mutations.splice_tab json i p in IsSaved p'.storage p'.state
    splice-IsSaved none p h = h
    splice-IsSaved (some i) p (_, a, b, c, d, e) = (saves _, a, b, c, d, e)

    remove-IsSaved :
        (id : Option ℕ) (p : Page)
        → IsSaved p.storage p.state
        → let p' = Mutations.remove_with json id p in IsSaved p'.storage p'.state
    remove-IsSaved none p h = h
    remove-IsSaved (some id) p h = splice-IsSaved _ p h

    commit-IsSaved :
        (m : Mutation) (p : Page)
        → IsSaved p.storage p.state
        → IsSaved (commit json m p).storage (commit json m p).state
    unfolding commit Mutations.set_menu_items Mutations.set_sidebar_collapsed Mutations.set_tabs
        Mutations.set_active_tab_id Mutations.add_tab Mutations.update_tab Mutations.remove_all_tabs
        Mutations.remove_tab Mutations.set_dragging_tab Mutations.reset_dragging_tab
        Mutations.set_target_tab Mutations.reset_target_tab Mutations.set_is_tabs_dragging
        Mutations.set_nav_visible_fn Mutations.set_detail_tab_visible_fn
        Mutations.set_action_visible_fn Mutations.set_chatbot_sidebar_visible
        Mutations.set_chatbot_sidebar_width
    commit-IsSaved (Mutation.set_sidebar_collapsed value) p (a, b, c, _, d, e) =
        (a, b, c, default_boolean-boolean_text value, d, e)
    commit-IsSaved (Mutation.set_tabs ts) p (_, a, b, c, d, e) = (saves ts, a, b, c, d, e)
    commit-IsSaved (Mutation.set_active_tab_id id) p (a, _, b, c, d, e) =
        (a, default_active_tab_id-decimal id, b, c, d, e)
    commit-IsSaved (Mutation.add_tab tab) p h = push-IsSaved tab.id tab p h
    commit-IsSaved (Mutation.update_tab tab) p (_, a, b, c, d, e) = (saves _, a, b, c, d, e)
    commit-IsSaved Mutation.remove_all_tabs p (_, a, b, c, d, e) = (refl, a, b, c, d, e)
    commit-IsSaved (Mutation.remove_tab tab) p h = remove-IsSaved tab.id p h
    commit-IsSaved (Mutation.set_chatbot_sidebar_visible value) p (a, b, c, d, _, e) =
        (a, b, c, d, default_boolean-boolean_text value, e)
    commit-IsSaved (Mutation.set_chatbot_sidebar_width value) p (a, b, c, d, e, _) =
        (a, b, c, d, e, default_width-number_text value)
    commit-IsSaved (Mutation.set_menu_items is) p h = h
    commit-IsSaved (Mutation.set_dragging_tab tab) p h = h
    commit-IsSaved Mutation.reset_dragging_tab p h = h
    commit-IsSaved (Mutation.set_target_tab tab) p h = h
    commit-IsSaved Mutation.reset_target_tab p h = h
    commit-IsSaved (Mutation.set_is_tabs_dragging value) p h = h
    commit-IsSaved (Mutation.set_nav_visible_fn fn) p h = h
    commit-IsSaved (Mutation.set_detail_tab_visible_fn fn) p h = h
    commit-IsSaved (Mutation.set_action_visible_fn fn) p h = h

    commits-IsSaved :
        (ms : List Mutation) (p : Page)
        → IsSaved p.storage p.state
        → IsSaved (commits json ms p).storage (commits json ms p).state
    unfolding commits
    commits-IsSaved [] p h = h
    commits-IsSaved (m ∷ ms) p h = commits-IsSaved ms (commit json m p) (commit-IsSaved m p h)

  -- Whatever mutations are committed to a page that was loaded from the storage, a reload succeeds and
  -- finds the tabs, the active tab, the last identifier, the sidebar and the visibility of the chatbot
  -- as they were, and the width of the chatbot without its fraction; the rest of the state is new. This
  -- holds if `JSON.parse` reads what `JSON.stringify` wrote of the tabs, which is never empty.
  pub reload_restores :
      (inverse : (ts : List Tab) → json.parse (json.stringify ts) ≡ some ts)
      (written : (ts : List Tab) → json.stringify ts ≢ []) (items : List MenuItem)
      (storage : LocalStorage) (p : Page) (ms : List Mutation)
      → open_page json items storage ≡ some p
      → initial_state json items (commits json ms p).storage
        ≡ some (reloaded items (commits json ms p).state)
  reload_restores inverse written items storage p ms opened =
      let saves : (ts : List Tab) → default_tabs json (some (json.stringify ts)) ≡ some ts =
        λ ts. stored_or-IsSome (some []) json.parse (json.stringify ts) (written ts) ∙ inverse ts in
      IsSaved-initial_state items (commits json ms p).storage (commits json ms p).state
        (commits-IsSaved saves ms p (open_page-IsSaved items storage p opened))
