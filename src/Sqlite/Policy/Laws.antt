-- ===== src/Sqlite/Policy/Laws.antt =====
-- What the policy of internal/connection/sqlite/policy.go lets a statement do.
use mathlib.Core.List.{append-nil}
use dataporch.Prelude.{
  ◌+◌, ◌<◌, ◌&&◌, leb, if◌then◌else◌, All, map, subst, sym, ap, ◌∙◌, ℕ, ◌≡◌, ◌≢◌, refl, ◌⊎◌, ◌↔◌,
  inl, inr, true, false, List, [], ◌∷◌, ◌++◌, arith,
}
use dataporch.Text.{Text, bytes, same, same_iff, has_prefix}
use dataporch.Fault.{ok, Result-cases}
use dataporch.Text.Words.{trim_space}
use dataporch.Sqlite.Policy.{
  AccessMode, query, Action, select, recursive, read, function, pragma, other_action, allow,
  is_denied_function, Conn, configure_connection, Request, config, exec, validate, set_authorizer,
  dbconfig_defensive, dbconfig_trusted_schema, function_allowed, authorize,
}

-- A letter of ASCII in lower case.
abbrev pub lower : ℕ → ℕ
lower b = if leb b'A' b && leb b b'Z' then b + 32 else b

-- `strings.ToLower` maps each rune by itself, and a letter of ASCII to its lower case.
pub record IsToLower (to_lower : Text → Text) : Type 0 where
  pub ascii : (s t : Text) → All (λ b. b < 128) s → to_lower (s ++ t) ≡ map lower s ++ to_lower t
  pub empty : to_lower [] ≡ []

-- The name, without the blanks around it, is not this word in small or capital letters.
abbrev pub IsOther : Text → Text → Type 0
IsOther word name = (s : Text) → map lower s ≡ word → trim_space name ≢ s

-- Nor does it start with it.
abbrev pub StartsOther : Text → Text → Type 0
StartsOther word name = (s t : Text) → map lower s ≡ word → trim_space name ≢ s ++ t

-- What a client's statement may do: select, read where the schema is main or not named, and call a
-- function other than four by name, and not a pragma's.
abbrev pub IsHarmless : Action → Text → Text → Type 0
IsHarmless action name schema =
    (action ≡ select)
    ⊎ (action ≡ recursive)
    ⊎ ((action ≡ read) × ((schema ≡ []) ⊎ (schema ≡ bytes "main")))
    ⊎ ((action ≡ function)
        × IsOther (bytes "load_extension") name
        × IsOther (bytes "readfile") name
        × IsOther (bytes "writefile") name
        × IsOther (bytes "fsdir") name
        × StartsOther (bytes "pragma_") name)

lower-ascii : (s : Text) → All (λ b. b < 128) (map lower s) → All (λ b. b < 128) s
lower-ascii [] h = tt
lower-ascii (b ∷ s) h = (ground (arith, h.0), lower-ascii s h.1)

module _ (to_lower : Text → Text) (law : IsToLower to_lower) where
  to_lower-spelled :
      (s t word : Text)
      → All (λ b. b < 128) word
      → map lower s ≡ word
      → to_lower (s ++ t) ≡ word ++ to_lower t
  to_lower-spelled s t word h k =
      law.ascii s t (lower-ascii s (subst (All (λ b. b < 128)) (sym k) h))
      ∙ ap (λ x. x ++ to_lower t) k

  function_allowed-IsOther :
      (mode : AccessMode) (name denied : Text)
      → function_allowed to_lower mode name ≡ true
      → is_denied_function denied ≡ true
      → All (λ b. b < 128) denied
      → IsOther denied name
  unfolding function_allowed
  function_allowed-IsOther mode name denied h k a s spelled q =
      let lowered : to_lower (trim_space name) ≡ denied =
        ap to_lower (q ∙ sym (append-nil s))
        ∙ to_lower-spelled s [] denied a spelled
        ∙ ap (◌++◌ denied) law.empty
        ∙ append-nil denied in
      ground (arith, h, k, lowered)

  pragma_prefix : (t : Text) → has_prefix (bytes "pragma_" ++ t) (bytes "pragma_") ≡ true
  unfolding has_prefix
  pragma_prefix t = ground arith

  query_functions :
      (name : Text)
      → function_allowed to_lower query name ≡ true
      → has_prefix (to_lower (trim_space name)) (bytes "pragma_") ≡ false
  unfolding function_allowed
  query_functions name h = ground (arith, h)

  function_allowed-StartsOther :
      (name : Text)
      → function_allowed to_lower query name ≡ true
      → StartsOther (bytes "pragma_") name
  function_allowed-StartsOther name h s t spelled q =
      let lowered : to_lower (trim_space name) ≡ bytes "pragma_" ++ to_lower t =
        ap to_lower q ∙ to_lower-spelled s t (bytes "pragma_") (omega arith) spelled in
      ground (arith, query_functions name h, lowered, pragma_prefix (to_lower t))

  same_bytes : (a b : Text) → same a b ≡ true → a ≡ b
  same_bytes a b h = (same_iff a b).0 h

  -- Whatever a client's statement is made of, SQLite is told to allow only a select, a recursive one, a
  -- read where the schema is main or not named, and a call of a function whose name is not
  -- load_extension, readfile, writefile or fsdir, and does not start with pragma_, also with blanks
  -- around it and in any mixture of small and capital letters. Every other action is denied, also those
  -- that the code does not name. `strings.ToLower` is as its law says.
  pub authorize-IsHarmless :
      (action : Action) (name3rd name4th schema inner : Text)
      → authorize to_lower query action name3rd name4th schema inner ≡ allow
      → IsHarmless action name4th schema
  unfolding authorize is_denied_function same
  authorize-IsHarmless select name3rd name4th schema inner h = inl refl
  authorize-IsHarmless recursive name3rd name4th schema inner h = inr (inl refl)
  authorize-IsHarmless read name3rd name4th schema inner h =
      inr (
        inr (inl (refl, ground (arith, h, same_bytes schema [], same_bytes schema (bytes "main")))))
  authorize-IsHarmless function name3rd name4th schema inner h =
      let called : function_allowed to_lower query name4th ≡ true = ground (arith, h) in
      let other = λ (word : Text). function_allowed-IsOther query name4th word called in
      inr (
        inr (
          inr (
            refl,
            other (bytes "load_extension") refl (omega arith),
            other (bytes "readfile") refl (omega arith),
            other (bytes "writefile") refl (omega arith),
            other (bytes "fsdir") refl (omega arith),
            function_allowed-StartsOther name4th called,
          )))
  authorize-IsHarmless pragma name3rd name4th schema inner h = absurd (ground (arith, h))
  authorize-IsHarmless (other_action n) name3rd name4th schema inner h = absurd (ground (arith, h))

-- The requests that secure a connection, the last one first.
abbrev pub securing : AccessMode → List Request
securing mode =
    set_authorizer mode
    ∷ validate
    ∷ exec (bytes "PRAGMA query_only=ON")
    ∷ config dbconfig_trusted_schema false
    ∷ config dbconfig_defensive true
    ∷ []

-- The connection says that it is defensive and distrusts its schema, and accepts the rest.
abbrev pub Agrees : Conn → Type 0
Agrees conn =
    (conn.defensive ≡ ok true)
    × (conn.trusted_schema ≡ ok false)
    × (conn.exec_query_only ≡ ok tt)
    × (conn.validated ≡ ok tt)
    × (conn.authorizer ≡ ok tt)

configure_connection-ok :
    (conn : Conn) (mode : AccessMode) → ((configure_connection conn mode).0 ≡ ok tt) ↔ Agrees conn
unfolding configure_connection
configure_connection-ok conn mode = (λ h. ground (arith, h), λ h. ground (arith, h))

configure_connection_all :
    (conn : Conn) (mode : AccessMode)
    → (configure_connection conn mode).0 ≡ ok tt
    → (configure_connection conn mode).1 ≡ securing mode
unfolding configure_connection
configure_connection_all conn mode h = ground (arith, h)

configure_connection-prefix :
    (conn : Conn) (mode : AccessMode)
    → (rest : List Request) × (rest ++ (configure_connection conn mode).1 ≡ securing mode)
unfolding configure_connection
configure_connection-prefix conn mode = elim (Result-cases conn.defensive) [
  | inr (e, a) ↦ (
    set_authorizer mode
        ∷ validate
        ∷ exec (bytes "PRAGMA query_only=ON")
        ∷ config dbconfig_trusted_schema false
        ∷ [],
    ground (arith, a),
  )
  | inl (false, a) ↦ (
    set_authorizer mode
        ∷ validate
        ∷ exec (bytes "PRAGMA query_only=ON")
        ∷ config dbconfig_trusted_schema false
        ∷ [],
    ground (arith, a),
  )
  | inl (true, a) ↦ elim (Result-cases conn.trusted_schema) [
    | inr (e, b) ↦ (
      set_authorizer mode ∷ validate ∷ exec (bytes "PRAGMA query_only=ON") ∷ [],
      ground (arith, a, b),
    )
    | inl (true, b) ↦ (
      set_authorizer mode ∷ validate ∷ exec (bytes "PRAGMA query_only=ON") ∷ [],
      ground (arith, a, b),
    )
    | inl (false, b) ↦ elim (Result-cases conn.exec_query_only) [
      | inr (e, c) ↦ (set_authorizer mode ∷ validate ∷ [], ground (arith, a, b, c))
      | inl (u, c) ↦ elim (Result-cases conn.validated) [
        | inr (e, d) ↦ (set_authorizer mode ∷ [], ground (arith, a, b, c, d))
        | inl (v, d) ↦ ([], ground (arith, a, b, c, d))
      ]
    ]
  ]
]

-- However a connection answers, what is asked of it is a beginning of one fixed order: to be defensive,
-- to distrust its schema, to execute PRAGMA query_only=ON, to be validated, and to take the authorizer
-- of its mode. The configuration succeeds exactly when the connection is then defensive, distrusts its
-- schema and accepts the rest, and in that case all five were asked.
pub configure_connection-secures :
    (conn : Conn) (mode : AccessMode)
    → ((rest : List Request) × (rest ++ (configure_connection conn mode).1 ≡ securing mode))
      × (((configure_connection conn mode).0 ≡ ok tt) ↔ Agrees conn)
      × ((configure_connection conn mode).0 ≡ ok tt
          → (configure_connection conn mode).1 ≡ securing mode)
configure_connection-secures conn mode = (
  configure_connection-prefix conn mode,
  configure_connection-ok conn mode,
  configure_connection_all conn mode,
)
