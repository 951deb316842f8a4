-- ===== src/Taint/Rules.antt =====
-- core/internal/model/model.go: the rules of a model that the propagation asks (SanitizerFor,
-- CallbackFor, ResolverFor, StoreReadAt, NormalizeFieldName), in the fields that these read. The
-- tables of the built-in rules are the arguments.
use sast_engine.Prelude.{
  ℕ, ◌-◌, String, Bool, true, false, not, ◌||◌, ◌&&◌, Option, none, some, List, [], ◌∷◌, contains,
  same, is_some, if◌then◌else◌, contains_text, has_suffix, after_last_dot, last_segment, to_lower,
  without_underscores, any,
}
use Prim.Native.String.{len, slice, ◌++◌ as join}

pub record SanitizerRule : Type 0 where
  pub symbol : String
  pub method : String
  pub after_symbol : List String

-- `resolver_param` is a pointer in the source; `none` is nil.
pub record CallbackRule : Type 0 where
  pub method : String
  pub symbol : String
  pub callback_arg : ℕ
  pub callback_param : ℕ
  pub resolver_param : Option ℕ
  pub resolver_arg : ℕ
  pub note : String

pub record StoreAccess : Type 0 where
  pub id : String
  pub direction : String
  pub method : List String
  pub symbol : List String
  pub method_alone : Bool
  pub receiver_type : List String
  pub receiver_word : List String
  pub symbol_contains : List String

pub record Model : Type 0 where
  pub sanitizers : List SanitizerRule
  pub callbacks : List CallbackRule
  pub persistence : List StoreAccess

-- `matchesMethod`
unfoldable pub matches_method : SanitizerRule → String → Bool
matches_method s symbol = elim (after_last_dot (len symbol) symbol) [
  | none ↦ false
  | some leaf ↦
      same leaf s.method
      && (any (λ want. contains_text symbol (join want "(")) s.after_symbol
          || elim s.after_symbol [ [] ↦ true | _ ∷ _ ↦ false ])
]

unfoldable pub sanitizer_for : List SanitizerRule → String → Option SanitizerRule
sanitizer_for [] symbol = none
sanitizer_for (s ∷ rules) symbol =
    let rest = sanitizer_for rules symbol in
    if not (same s.symbol "") && same s.symbol symbol
    then some s
    else if not (same s.method "") && matches_method s symbol
    then some s
    else rest

-- the loop of `CallbackFor`
unfoldable pub inward_rule : List CallbackRule → String → Option CallbackRule
inward_rule [] method = none
inward_rule (c ∷ rules) method =
    let rest = inward_rule rules method in
    if same c.method method && not (is_some c.resolver_param) then some c else rest

unfoldable pub callback_for : List CallbackRule → String → Option CallbackRule
callback_for rules method = if same method "" then none else inward_rule rules method

unfoldable pub resolver_for : List CallbackRule → String → String → Option CallbackRule
resolver_for [] symbol method = none
resolver_for (c ∷ rules) symbol method =
    let rest = resolver_for rules symbol method in
    if not (is_some c.resolver_param)
    then rest
    else if not (same c.symbol "") && (same symbol c.symbol || same (last_segment symbol) c.symbol)
    then some c
    else if not (same c.method "") && same c.method method
    then some c
    else rest

unfoldable pub receiver_spelling : String → String → String
receiver_spelling symbol method =
    let suffix = join "." method in
    let rest =
      if has_suffix symbol suffix then slice symbol 0 (len symbol - len method - 1) else symbol in
    if same rest "" || same rest symbol then "" else to_lower (last_segment rest)

-- `Matches` of a store rule
unfoldable pub store_matches : StoreAccess → String → String → String → Bool
store_matches s symbol method receiver_type =
    if contains s.symbol symbol
    then true
    else if same method "" || not (contains s.method method)
    then false
    else if s.method_alone
    then true
    else if contains s.receiver_type receiver_type
    then true
    else if any (λ marker. contains_text symbol marker) s.symbol_contains
    then true
    else (let word = receiver_spelling symbol method in
        not (same word "") && any (λ w. contains_text word w) s.receiver_word)

-- `storeAccessAt`
unfoldable pub store_access_at :
    List StoreAccess → String → String → String → String → Option StoreAccess
store_access_at [] direction symbol method receiver_type = none
store_access_at (s ∷ rules) direction symbol method receiver_type =
    let rest = store_access_at rules direction symbol method receiver_type in
    if same s.direction direction && store_matches s symbol method receiver_type
    then some s
    else rest

unfoldable pub store_read_at : List StoreAccess → String → String → String → Option StoreAccess
store_read_at rules = store_access_at rules "read"

unfoldable pub normalize_field_name : String → String
normalize_field_name name = to_lower (without_underscores name)
