-- ===== src/Daemon/Request.antt =====
-- packages/daemon/src: a request for execution (daemon-command-name.ts, daemon-executor.ts) and the
-- canonical form whose digest is its fingerprint (`canonicalValue` of
-- execution/accepted-request-ledger.ts). The digest, SHA-256 over `JSON.stringify`, and the order
-- of `localeCompare` belong to the platform and are parameters.
use symnav.Prelude.{ℕ, Bool, true, false, List, [], ◌∷◌, Text, text, if◌then◌else◌}

pub data DaemonCommandName : Type 0 where
  overview resolve definition refs context graph stats help version unknown : DaemonCommandName

pub data DaemonExecutionMode : Type 0 where
  cold warm fallback : DaemonExecutionMode

pub record DaemonExecutorRequest : Type 0 where
  pub argv : List Text
  pub cwd : Text
  pub telemetry_enabled : Bool
  pub execution_mode : DaemonExecutionMode

-- The values of JSON, and `undefined`, which a property may have.
mutual
  pub data Value : Type 0 where
    undefined : Value
    null : Value
    boolean : Bool → Value
    number : ℕ → Value
    -- a number that is no nonnegative integer, by its spelling
    other_number : Text → Value
    string : Text → Value
    array : Items → Value
    object : Fields → Value

  pub data Items : Type 0 where
    no_items : Items
    one_item : Value → Items → Items

  pub data Fields : Type 0 where
    no_fields : Fields
    field : Text → Value → Fields → Fields

-- What the platform gives: the order of `localeCompare` (negative) and the digest of a value.
pub record Platform : Type 0 where
  pub locale_before : Text → Text → Bool
  pub digest : Value → Text

abbrev is_undefined : Value → Bool
is_undefined undefined = true
is_undefined _ = false

-- `sort` of the entries by their keys, one entry put in its place.
unfoldable pub insert_field : (Text → Text → Bool) → Text → Value → Fields → Fields
insert_field before k v no_fields = field k v no_fields
insert_field before k v (field j w rest) =
    if before j k then field j w (insert_field before k v rest) else field k v (field j w rest)

unfoldable mutual
  unfolding insert_field

  pub canonical_value : (Text → Text → Bool) → Value → Value
  canonical_value before undefined = undefined
  canonical_value before null = null
  canonical_value before (boolean b) = boolean b
  canonical_value before (number n) = number n
  canonical_value before (other_number s) = other_number s
  canonical_value before (string s) = string s
  canonical_value before (array items) = array (canonical_items before items)
  canonical_value before (object fields) = object (canonical_fields before fields)

  pub canonical_items : (Text → Text → Bool) → Items → Items
  canonical_items before no_items = no_items
  canonical_items before (one_item v items) =
      one_item (canonical_value before v) (canonical_items before items)

  pub canonical_fields : (Text → Text → Bool) → Fields → Fields
  canonical_fields before no_fields = no_fields
  canonical_fields before (field k v rest) =
      let others = canonical_fields before rest in
      if is_undefined v then others else insert_field before k (canonical_value before v) others

abbrev command_text : DaemonCommandName → Text
command_text overview = text "overview"
command_text resolve = text "resolve"
command_text definition = text "def"
command_text refs = text "refs"
command_text context = text "context"
command_text graph = text "graph"
command_text stats = text "stats"
command_text help = text "help"
command_text version = text "version"
command_text unknown = text "unknown"

abbrev mode_text : DaemonExecutionMode → Text
mode_text cold = text "cold"
mode_text warm = text "warm"
mode_text fallback = text "fallback"

abbrev strings : List Text → Items
strings [] = no_items
strings (s ∷ rest) = one_item (string s) (strings rest)

abbrev pub request_value : DaemonCommandName → DaemonExecutorRequest → Value
request_value name request = object (
    field (text "commandName") (string (command_text name)) (
      field (text "request")
        (object (
          field (text "argv") (array (strings request.argv)) (
            field (text "cwd") (string request.cwd) (
              field (text "telemetryEnabled") (boolean request.telemetry_enabled) (
                field (text "executionMode") (string (mode_text request.execution_mode))
                  no_fields)))))
        no_fields))

unfoldable pub fingerprint : Platform → DaemonCommandName → DaemonExecutorRequest → Text
unfolding canonical_value
fingerprint platform name request =
    platform.digest (canonical_value platform.locale_before (request_value name request))
