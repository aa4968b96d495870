-- ===== src/Sockets/Preferences/Agreement.antt =====
-- The stored preferences of src/websocket_filter_manager.cpp and the filters in force.
use rclabs_api.Prelude.{
  ◌≡◌, refl, sym, ◌∙◌, ap, subst, ◌⊎◌, inl, inr, String, str_eq, eq_iff, Bool, true, false, Option,
  none, some, lookup, lookup-insert, lookup-erase, Bool-cases, if◌then◌else◌, arith,
}
use rclabs_api.Monitoring.Filters.{ConnectionFilters}
use rclabs_api.Sockets.Connection.{change_filters, set_filters}
use rclabs_api.Sockets.Manager.{WebSocketManager, filters_of, set_connection_filters}
use rclabs_api.Sockets.Preferences.{
  FilterManager, save_connection_preferences, clear_stored_preferences, set_and_save,
}
use rclabs_api.Sockets.Preferences.Handlers.{stored_after}
use rclabs_api.Sockets.Preferences.Changes.{changed, open_in, open_in-changed, filters_of-changed}

-- What is stored for a connection, if anything, are its filters in force, unless the connection
-- is not open.
abbrev pub AgreesAt : FilterManager → String → Type 0
AgreesAt f j =
    (lookup j f.stored_preferences ≡ none)
    ⊎ (lookup j f.stored_preferences ≡ some (filters_of f.manager j))
    ⊎ (open_in f.manager j ≡ false)

abbrev pub Agrees : FilterManager → Type 0
Agrees f = (j : String) → AgreesAt f j

if_false {ℓ} : {A : Type ℓ} (b : Bool) (x y : A) → b ≡ false → (if b then x else y) ≡ y
if_false true x y e = absurd (ground (arith, e))
if_false false x y e = refl

if_true {ℓ} : {A : Type ℓ} (b : Bool) (x y : A) → b ≡ true → (if b then x else y) ≡ x
if_true true x y e = refl
if_true false x y e = absurd (ground (arith, e))

module _ (f : FilterManager) (g : ConnectionFilters → ConnectionFilters) (id : String) where
  abbrev after : WebSocketManager
  after = changed g f.manager id

  itself : str_eq id id ≡ true
  itself = (eq_iff id id).1 refl

  -- Elsewhere, nothing changes.
  elsewhere :
      (j : String) (o : Option ConnectionFilters)
      → str_eq id j ≡ false
      → o ≡ lookup j f.stored_preferences
      → AgreesAt f j
      → (o ≡ none) ⊎ (o ≡ some (filters_of after j)) ⊎ (open_in after j ≡ false)
  elsewhere j o differ same a = elim a [
    | inl none_stored ↦ inl (same ∙ none_stored)
    | inr (inl agreed) ↦ inr (
        inl (
          same
          ∙ agreed
          ∙ ap some (sym (filters_of-changed g f.manager id j ∙ if_false _ _ _ differ))))
    | inr (inr closed) ↦ inr (inr (open_in-changed g f.manager id j ∙ closed))
  ]

  -- The filters of a connection are changed, and `saved` is stored for it.
  pub saved-Agrees :
      (saved : ConnectionFilters)
      → (open_in f.manager id ≡ false) ⊎ (saved ≡ filters_of after id)
      → Agrees f
      → Agrees (save_connection_preferences (record f { manager = after }) id saved)
  unfolding save_connection_preferences
  saved-Agrees saved h a j = elim (Bool-cases (str_eq id j)) [
    | inl same ↦
        subst
          (λ k. AgreesAt (save_connection_preferences (record f { manager = after }) id saved) k)
          ((eq_iff id j).0 same) here
    | inr differ ↦
        elsewhere j _ differ (lookup-insert j id saved f.stored_preferences ∙ if_false _ _ _ differ)
          (a j)
  ]
    where
      here : AgreesAt (save_connection_preferences (record f { manager = after }) id saved) id
      here = elim h [
        | inl closed ↦ inr (inr (open_in-changed g f.manager id id ∙ closed))
        | inr e ↦ inr (
            inl (lookup-insert id id saved f.stored_preferences ∙ if_true _ _ _ itself ∙ ap some e))
      ]

  pub forgotten-Agrees :
      Agrees f → Agrees (clear_stored_preferences (record f { manager = after }) id)
  unfolding clear_stored_preferences
  forgotten-Agrees a j = elim (Bool-cases (str_eq id j)) [
    | inl same ↦ inl (lookup-erase j id f.stored_preferences ∙ if_true _ _ _ same)
    | inr differ ↦
        elsewhere j _ differ (lookup-erase j id f.stored_preferences ∙ if_false _ _ _ differ) (a j)
  ]

  -- What is stored after a change is read back from the connection.
  pub stored_after-Agrees : (text : String) → Agrees f → Agrees (stored_after f id after text).0
  unfolding stored_after
  stored_after-Agrees text a = saved-Agrees (filters_of after id) (inr refl) a

pub set_and_save-Agrees :
    (f : FilterManager) (id : String) (filters : ConnectionFilters)
    → Agrees f
    → Agrees (set_and_save f id filters)
unfolding set_and_save set_connection_filters set_filters change_filters
set_and_save-Agrees f id filters a =
    saved-Agrees f (λ _. filters) id filters
      (elim (Bool-cases (open_in f.manager id)) [
        | inr closed ↦ inl closed
        | inl up ↦ inr (
            sym (
              filters_of-changed (λ _. filters) f.manager id id
              ∙ if_true _ _ _ (itself f (λ _. filters) id)
              ∙ if_true _ _ _ up))
      ])
      a
