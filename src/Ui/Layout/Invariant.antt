-- ===== src/Ui/Layout/Invariant.antt =====
-- The identifiers of the tabs of frontend/astiango-hub-ui/src/store/modules/layout.ts.
use astiango_hub.Common.{
  ℕ, ◌+◌, ◌≤◌, ◌≡◌, ◌≢◌, refl, Option, none, some, List, [], ◌∷◌, ◌++◌, arith, All, All-append,
  All-mono, Distinct, find_index, remove_at, inl, inr, Bool-cases, ==_iff, false,
}
use astiango_hub.Common.Arrays.Laws.{
  remove_at-All, remove_at-Distinct, set_at-same, append-Distinct, remove_at-absent, map-remove_at,
  map-set_at,
}
use astiango_hub.Common.Arrays.Search.{find_index-none, find-last}
use mathlib.Core.Option.{some-injective}
use mathlib.Core.List.{map-append}
use astiango_hub.Ui.Layout.{Tab, TabsJson, LayoutStoreState, Page, has_id, active_tab, same_id}
use astiango_hub.Ui.Layout.Mutations
use astiango_hub.Ui.Layout.Session.{Mutation, commit, commits}
use astiango_hub.Ui.Layout.Tabs.{ids, index-id, same_id-eq}

-- A number that was given out.
abbrev pub GivenOut : ℕ → Option ℕ → Type 0
GivenOut maximum none = ⊥
GivenOut maximum (some n) = n ≤ maximum

-- The identifiers of tabs are numbers up to `maximum`, and no two tabs share one.
abbrev pub HasIds : ℕ → List Tab → Type 0
HasIds maximum ts = All (GivenOut maximum) (ids ts) × Distinct (ids ts)

abbrev pub IsNumbered : LayoutStoreState → Type 0
IsNumbered s = HasIds s.max_tab_id s.tabs

-- The mutations that the view commits: a new tab has no identifier, and the list is not replaced.
abbrev pub IsOwn : Mutation → Type 0
IsOwn (Mutation.set_tabs ts) = ⊥
IsOwn (Mutation.add_tab tab) = tab.id ≡ none
IsOwn m = Unit

GivenOut-suc : (m : ℕ) (o : Option ℕ) → GivenOut m o → GivenOut (m + 1) o
GivenOut-suc m none h = absurd h
GivenOut-suc m (some n) h = omega arith

GivenOut-fresh : (m : ℕ) (o : Option ℕ) → GivenOut m o → o ≢ some (m + 1)
GivenOut-fresh m none h = absurd h
GivenOut-fresh m (some n) h = λ e. omega (arith, some-injective _ _ e)

push-HasIds :
    (m : ℕ) (ts : List Tab) (t : Tab)
    → t.id ≡ some (m + 1)
    → HasIds m ts
    → HasIds (m + 1) (ts ++ t ∷ [])
push-HasIds m ts t e (given, distinct) =
    rw (map-append (λ u. u.id) ts (t ∷ []), e)
      (
        All-append (GivenOut (m + 1)) (ids ts) (some (m + 1) ∷ [])
            (All-mono (ids ts) (GivenOut-suc m) given) (omega arith, tt),
        append-Distinct (ids ts) (some (m + 1)) distinct
            (All-mono (ids ts) (GivenOut-fresh m) given),
      )

replace-ids :
    (ts : List Tab) (t : Tab) (i : Option ℕ)
    → find_index (has_id t.id) ts ≡ i
    → ids (Mutations.replace_tab ts i t) ≡ ids ts
replace-ids ts t none e = refl
replace-ids ts t (some i) e =
    rw (map-set_at (λ u. u.id) i t ts) (set_at-same i t.id (ids ts) (index-id ts t.id e).1)

remove-HasIds : (m : ℕ) (ts : List Tab) (i : ℕ) → HasIds m ts → HasIds m (remove_at i ts)
remove-HasIds m ts i (given, distinct) =
    rw (map-remove_at (λ t. t.id) i ts)
      (remove_at-All (GivenOut m) i (ids ts) given, remove_at-Distinct i (ids ts) distinct)

push-IsNumbered :
    (json : TabsJson) (id : Option ℕ) (tab : Tab) (p : Page)
    → id ≡ none
    → IsNumbered p.state
    → IsNumbered (Mutations.push_with json id tab p).state
push-IsNumbered json none tab p e h = push-HasIds p.state.max_tab_id p.state.tabs _ refl h
push-IsNumbered json (some id) tab p e h = cc

splice-IsNumbered :
    (json : TabsJson) (i : Option ℕ) (p : Page)
    → IsNumbered p.state
    → IsNumbered (Mutations.splice_tab json i p).state
splice-IsNumbered json none p h = h
splice-IsNumbered json (some i) p h = remove-HasIds p.state.max_tab_id p.state.tabs i h

remove-IsNumbered :
    (json : TabsJson) (id : Option ℕ) (p : Page)
    → IsNumbered p.state
    → IsNumbered (Mutations.remove_with json id p).state
remove-IsNumbered json none p h = h
remove-IsNumbered json (some id) p h = splice-IsNumbered json _ p h

commit-IsNumbered :
    (json : TabsJson) (m : Mutation) (p : Page)
    → IsOwn m
    → IsNumbered p.state
    → IsNumbered (commit json m p).state
unfolding commit Mutations.set_menu_items Mutations.set_sidebar_collapsed Mutations.set_tabs
    Mutations.set_active_tab_id Mutations.add_tab Mutations.update_tab Mutations.remove_all_tabs
    Mutations.remove_tab Mutations.set_dragging_tab Mutations.reset_dragging_tab
    Mutations.set_target_tab Mutations.reset_target_tab Mutations.set_is_tabs_dragging
    Mutations.set_nav_visible_fn Mutations.set_detail_tab_visible_fn Mutations.set_action_visible_fn
    Mutations.set_chatbot_sidebar_visible Mutations.set_chatbot_sidebar_width
commit-IsNumbered json (Mutation.set_tabs ts) p own h = absurd own
commit-IsNumbered json (Mutation.add_tab tab) p own h = push-IsNumbered json tab.id tab p own h
commit-IsNumbered json (Mutation.update_tab tab) p own h =
    rw (replace-ids p.state.tabs tab _ refl) h
commit-IsNumbered json Mutation.remove_all_tabs p own h = (tt, tt)
commit-IsNumbered json (Mutation.remove_tab tab) p own h = remove-IsNumbered json tab.id p h
commit-IsNumbered json (Mutation.set_sidebar_collapsed value) p own h = h
commit-IsNumbered json (Mutation.set_active_tab_id id) p own h = h
commit-IsNumbered json (Mutation.set_chatbot_sidebar_visible value) p own h = h
commit-IsNumbered json (Mutation.set_chatbot_sidebar_width value) p own h = h
commit-IsNumbered json (Mutation.set_menu_items is) p own h = h
commit-IsNumbered json (Mutation.set_dragging_tab tab) p own h = h
commit-IsNumbered json Mutation.reset_dragging_tab p own h = h
commit-IsNumbered json (Mutation.set_target_tab tab) p own h = h
commit-IsNumbered json Mutation.reset_target_tab p own h = h
commit-IsNumbered json (Mutation.set_is_tabs_dragging value) p own h = h
commit-IsNumbered json (Mutation.set_nav_visible_fn fn) p own h = h
commit-IsNumbered json (Mutation.set_detail_tab_visible_fn fn) p own h = h
commit-IsNumbered json (Mutation.set_action_visible_fn fn) p own h = h

-- Every tab has its own identifier, a number that is at most the last one given out, through every
-- sequence of mutations in which new tabs come without an identifier and the list of tabs is not
-- replaced, if this holds of the page at the start.
pub commits-IsNumbered :
    (json : TabsJson) (ms : List Mutation) (p : Page)
    → All IsOwn ms
    → IsNumbered p.state
    → IsNumbered (commits json ms p).state
unfolding commits
commits-IsNumbered json [] p own h = h
commits-IsNumbered json (m ∷ ms) p (first, own) h =
    commits-IsNumbered json ms (commit json m p) own (commit-IsNumbered json m p first h)

not-has_id :
    (ts : List Tab) (i : Option ℕ) → All (λ o. o ≢ i) (ids ts) → All (λ t. has_id i t ≡ false) ts
not-has_id [] i h = tt
not-has_id (t ∷ ts) i (n, h) = elim (Bool-cases (has_id i t)) [
  | inl same ↦ absurd (n (same_id-eq t.id i same))
  | inr differs ↦ (differs, not-has_id ts i h)
]

-- A new tab that is made the active one, by the identifier that it was given, is the active tab.
pub add_tab-active :
    (json : TabsJson) (tab : Tab) (p : Page)
    → tab.id ≡ none
    → IsNumbered p.state
    → let id = p.state.max_tab_id + 1 in
      active_tab (Mutations.set_active_tab_id id (Mutations.add_tab json tab p)).state
      ≡ some (record tab { id = some id })
unfolding Mutations.set_active_tab_id Mutations.add_tab active_tab same_id
add_tab-active json tab p e (given, distinct) =
    let id = p.state.max_tab_id + 1 in
    let fresh =
      not-has_id p.state.tabs (some (p.state.max_tab_id + 1))
        (All-mono (ids p.state.tabs) (GivenOut-fresh p.state.max_tab_id) given) in
    rw e (find-last _ p.state.tabs _ fresh ((==_iff id id).1 refl))

GivenOut-present : (m : ℕ) (o : Option ℕ) → GivenOut m o → o ≢ none
GivenOut-present m none h = absurd h
GivenOut-present m (some n) h = λ e. cc

splice-absent :
    (json : TabsJson) (id : ℕ) (i : Option ℕ) (p : Page)
    → IsNumbered p.state
    → find_index (has_id (some id)) p.state.tabs ≡ i
    → find_index (has_id (some id)) (Mutations.splice_tab json i p).state.tabs ≡ none
splice-absent json id none p h e = e
splice-absent json id (some i) p (given, distinct) e =
    let ts = p.state.tabs in
    find_index-none _ (remove_at i ts) (
      not-has_id (remove_at i ts) (some id) (
        rw (map-remove_at (λ t. t.id) i ts)
          (remove_at-absent i (some id) (ids ts) (index-id ts (some id) e).1 distinct)))

remove-absent :
    (json : TabsJson) (id : Option ℕ) (p : Page)
    → IsNumbered p.state
    → find_index (has_id id) (Mutations.remove_with json id p).state.tabs ≡ none
remove-absent json none p (given, distinct) =
    let ts = p.state.tabs in
    find_index-none _ ts
      (not-has_id ts none (All-mono (ids ts) (GivenOut-present p.state.max_tab_id) given))
remove-absent json (some id) p h = splice-absent json id _ p h refl

-- After a tab is removed, no tab has its identifier.
pub remove_tab-absent :
    (json : TabsJson) (tab : Tab) (p : Page)
    → IsNumbered p.state
    → find_index (has_id tab.id) (Mutations.remove_tab json tab p).state.tabs ≡ none
unfolding Mutations.remove_tab
remove_tab-absent json tab p h = remove-absent json tab.id p h
