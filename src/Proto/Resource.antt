-- ===== src/Proto/Resource.antt =====
-- crates/proto/src/resource.rs: resource URIs, access declarations and side-effect classes.
pub mod Laws
use peras.Prelude.{
  ℕ, zero, suc, ◌+◌, ◌≡◌, refl, Bool, true, false, ◌&&◌, not, Option, none, some, List, [], ◌∷◌,
  ◌++◌, arith, if◌then◌else◌, Text, txt, text_eq, starts_with, decimal, length,
}

pub data Scheme : Type 0 where
  fs net cmd mcp secret mem git : Scheme

unfoldable pub prefix : Scheme → Text
prefix fs = txt "fs://"
prefix net = txt "net:"
prefix cmd = txt "cmd:"
prefix mcp = txt "mcp:"
prefix secret = txt "secret:"
prefix mem = txt "mem:"
prefix git = txt "git:"

-- A resource URI is a newtype over its text.
abbrev pub ResourceUri : Type 0
ResourceUri = Text

-- The schemes in the order in which `scheme` tries them.
unfoldable pub schemes : List Scheme
schemes = fs ∷ net ∷ cmd ∷ mcp ∷ secret ∷ mem ∷ git ∷ []

first_scheme : Text → List Scheme → Option Scheme
first_scheme s [] = none
first_scheme s (k ∷ ks) = if starts_with s (prefix k) then some k else first_scheme s ks

unfoldable pub scheme : ResourceUri → Option Scheme
unfolding first_scheme schemes
scheme u = first_scheme u schemes

unfoldable pub drop : ℕ → Text → Text
drop zero s = s
drop (suc n) [] = []
drop (suc n) (c ∷ s) = drop n s

-- The part after the scheme prefix.
rest_of : Option Scheme → Text → Text
unfolding drop
rest_of none u = u
rest_of (some k) u = drop (length (prefix k)) u

unfoldable pub rest : ResourceUri → Text
unfolding rest_of
rest u = rest_of (scheme u) u

pub data UriResult : Type 0 where
  ok : ResourceUri → UriResult
  err : Text → UriResult

parse_with : Option Scheme → Text → UriResult
parse_with none s = err s
parse_with (some k) s =
    if starts_with s (txt "fs://") && not (starts_with (drop 5 s) (txt "/")) then err s else ok s

unfoldable pub parse : Text → UriResult
unfolding parse_with
parse s = parse_with (scheme s) s

-- The constructors of URIs.
unfoldable pub fs_uri : Text → ResourceUri
fs_uri abs_path = txt "fs://" ++ abs_path

unfoldable pub net_uri : Text → ℕ → ResourceUri
net_uri host port = txt "net:" ++ (host ++ (txt ":" ++ decimal port))

unfoldable pub cmd_uri : Text → ResourceUri
cmd_uri command_line = txt "cmd:" ++ command_line

unfoldable pub mcp_uri : Text → Text → ResourceUri
mcp_uri server tool = txt "mcp:" ++ (server ++ (txt "/" ++ tool))

unfoldable pub secret_uri : Text → ResourceUri
secret_uri name = txt "secret:" ++ name

unfoldable pub mem_uri : Text → ResourceUri
mem_uri key = txt "mem:" ++ key

unfoldable pub git_uri : Text → ResourceUri
git_uri what = txt "git:" ++ what

pub data AccessMode : Type 0 where
  read write : AccessMode

pub record Access : Type 0 where
  pub resource : ResourceUri
  pub mode : AccessMode
  pub content_hash : Option Text

unfoldable pub read_access : ResourceUri → Access
read_access u = record { resource = u; mode = read; content_hash = none }

unfoldable pub write_access : ResourceUri → Access
write_access u = record { resource = u; mode = write; content_hash = none }

pub data EffectClass : Type 0 where
  pure local_write network irreversible opaque : EffectClass

unfoldable pub class_eq : EffectClass → EffectClass → Bool
class_eq pure pure = true
class_eq local_write local_write = true
class_eq network network = true
class_eq irreversible irreversible = true
class_eq EffectClass.opaque EffectClass.opaque = true
class_eq _ _ = false

abbrev pub is_read_only : EffectClass → Bool
is_read_only pure = true
is_read_only _ = false

-- The derived `==` of the three types and of an optional scheme.
abbrev pub mode_eq : AccessMode → AccessMode → Bool
mode_eq read read = true
mode_eq write write = true
mode_eq _ _ = false

abbrev pub is_opaque : EffectClass → Bool
is_opaque opaque = true
is_opaque _ = false

abbrev pub is_write : Access → Bool
is_write a = mode_eq a.mode write

unfoldable pub scheme_eq : Scheme → Scheme → Bool
scheme_eq fs fs = true
scheme_eq net net = true
scheme_eq cmd cmd = true
scheme_eq mcp mcp = true
scheme_eq secret secret = true
scheme_eq mem mem = true
scheme_eq git git = true
scheme_eq _ _ = false

unfoldable pub same_scheme : Option Scheme → Option Scheme → Bool
unfolding scheme_eq
same_scheme none none = true
same_scheme (some a) (some b) = scheme_eq a b
same_scheme _ _ = false

unfoldable pub has_scheme : Scheme → ResourceUri → Bool
unfolding same_scheme
has_scheme k u = same_scheme (scheme u) (some k)

unfoldable pub hash_eq : Option Text → Option Text → Bool
hash_eq none none = true
hash_eq (some a) (some b) = text_eq a b
hash_eq _ _ = false

unfoldable pub access_eq : Access → Access → Bool
unfolding hash_eq
access_eq a b =
    text_eq a.resource b.resource && mode_eq a.mode b.mode && hash_eq a.content_hash b.content_hash
