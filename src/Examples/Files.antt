-- ===== src/Examples/Files.antt =====
-- util.go, util/config.go, util/encoding.go, client/keys.go and cmd at concrete inputs.
use mulsigo.Prelude.{
  ℕ, zero, suc, ◌≡◌, ◌≢◌, refl, true, Option, none, some, [], ◌∷◌, ◌++◌, Bytes, ok, ◌>>=◌, arith,
  length, ◌%◌, nat_eq, list_eq, lookup, All, ap, ◌∙◌,
}
use mulsigo.Util.Base64.{encode, digit}
use mulsigo.Util.Base64.RoundTrip.{IsByte}
use mulsigo.Util.Hex.{write_hex, string_to_element}
use mulsigo.Util.Hex.RoundTrip.{string_to_element-write_hex}
use mulsigo.Util.Config.{root_config, Disk, System, path, write, read}
use mulsigo.Util.Config.Files.{read-write}
use mulsigo.Client.Keys.{
  Identity, Private, IdentityToml, signed_bytes, private_to_toml, private_from_toml, from_toml,
  to_toml, clamp, repr,
}
use mulsigo.Client.Keys.Clamp.{scalar_value, clamp_bounds}
use mulsigo.Client.Keys.Saved.{private_from_toml_lem, from_toml_forgets}
use mulsigo.Cmd.{secret_file, identity_file, Toml, process, generate_key, list_key, key_config}
use mulsigo.Cmd.Listed.{process_lem, list_key-generate_key}

-- The text AQI=.
encode_run : encode (1 ∷ 2 ∷ []) ≡ b'A' ∷ b'Q' ∷ b'I' ∷ b'=' ∷ []
unfolding encode digit
encode_run = refl

string_to_element-write_hex_example :
    (write_hex (λ p. some (p ∷ [])) (λ b. (7, true)) 1 7 >>= λ s.
    string_to_element (λ p. some (p ∷ [])) (λ b. (7, true)) 1 (s ++ []))
    ≡ ok 7
string_to_element-write_hex_example =
    string_to_element-write_hex (λ p. some (p ∷ [])) (λ b. (7, true)) 1 7 (7 ∷ []) [] refl refl
      (omega arith, tt) refl (omega arith)

-- A system in which nothing fails.
abbrev pub plain : System
plain = record {
  join = λ a b. a ++ b'/' ∷ b;
  rel = λ a b. some b;
  stat_error = λ p. none;
  mkdir_error = λ p. none;
  open_error = λ p. none;
  read_error = λ p. none;
}

abbrev empty : Disk
empty = record { files = []; folders = [] }

read-write_example :
    (d' : Disk) × (write plain empty (root_config (1 ∷ [])) (2 ∷ []) (3 ∷ []) none
      ≡ some (d', none))
    × (read plain d' (root_config (1 ∷ [])) (2 ∷ []) ≡ some (d', some (3 ∷ []), none))
    × ((p : Bytes) → p ≢ 1 ∷ b'/' ∷ 2 ∷ [] → lookup p d'.files ≡ none)
unfolding path lookup
read-write_example =
    read-write plain empty (root_config (1 ∷ [])) (2 ∷ []) (3 ∷ []) refl refl refl refl refl

abbrev pub someone : Identity
someone = record {
  name = b'a' ∷ [];
  key = 5 ∷ [];
  created_at = 9;
  signature = 6 ∷ [];
  address = [];
}

abbrev another : Identity
another = record {
  name = b'a' ∷ [];
  key = 5 ∷ [];
  created_at = 9;
  signature = [];
  address = 1 ∷ [];
}

abbrev no_time : Identity
no_time = record someone { created_at = 0 }

from_toml_forgets_example :
    signed_bytes (from_toml no_time (some (to_toml someone))).0 ≢ signed_bytes someone
from_toml_forgets_example =
    (from_toml_forgets someone no_time (omega arith, tt) (omega arith, tt) (omega arith)
      (omega arith) (λ e. ground (arith, e))).2

abbrev unused : Private
unused = record { seed = []; public = none }

private_from_toml_lem_example :
    private_from_toml unused
      (some (private_to_toml (record { seed = 1 ∷ 2 ∷ []; public = some someone })))
    ≡ (record { seed = 1 ∷ 2 ∷ []; public = none }, none)
private_from_toml_lem_example =
    private_from_toml_lem (record { seed = 1 ∷ 2 ∷ []; public = some someone }) unused
      (omega arith, (omega arith, tt))

abbrev bytes : ℕ → Bytes
bytes zero = []
bytes (suc k) = 255 ∷ bytes k

bytes-IsByte : (k : ℕ) → All IsByte (bytes k)
bytes-IsByte zero = tt
bytes-IsByte (suc k) = (omega arith, bytes-IsByte k)

clamp_bounds_example : scalar_value (clamp (bytes 32)) % 8 ≡ 0
clamp_bounds_example = (clamp_bounds (bytes 32) (bytes-IsByte 32) refl).0

process_lem_example : process (b'm' ∷ b'e' ∷ []) ≡ some (b'm' ∷ b'e' ∷ [])
unfolding process
process_lem_example = (process_lem (b'm' ∷ b' ' ∷ b'e' ∷ []) (b'm' ∷ b'e' ∷ []) refl).2

-- A text form in which a length stands before each part.
abbrev split_at : ℕ → Bytes → Bytes × Bytes
split_at zero s = ([], s)
split_at (suc k) [] = ([], [])
split_at (suc k) (c ∷ s) = let (a, b) = split_at k s in (c ∷ a, b)

split_at-length : (xs ys : Bytes) → split_at (length xs) (xs ++ ys) ≡ (xs, ys)
split_at-length [] ys = refl
split_at-length (x ∷ xs) ys = rw (split_at-length xs ys) refl

abbrev part : Bytes → Bytes × Bytes
part [] = ([], [])
part (n ∷ s) = split_at n s

abbrev print : IdentityToml → Bytes
print t =
    length t.name_text
    ∷ (t.name_text
        ++ (length t.key_text
            ∷ (t.key_text
                ++ (length t.signature_text
                    ∷ (t.signature_text ++ t.created_number ∷ t.address_text)))))

abbrev after_signature : Bytes → Bytes → Bytes × Bytes → Option IdentityToml
after_signature name key (signature, []) = none
after_signature name key (signature, time ∷ address) = some (record {
  name_text = name;
  key_text = key;
  created_number = time;
  signature_text = signature;
  address_text = address;
})

abbrev after_key : Bytes → Bytes × Bytes → Option IdentityToml
after_key name (key, s) = after_signature name key (part s)

abbrev after_name : Bytes × Bytes → Option IdentityToml
after_name (name, s) = after_key name (part s)

abbrev parse : Bytes → Option IdentityToml
parse s = after_name (part s)

pub parse-print : (t : IdentityToml) → parse (print t) ≡ some t
parse-print t =
    let rest2 = t.signature_text ++ t.created_number ∷ t.address_text in
    let rest1 = t.key_text ++ length t.signature_text ∷ rest2 in
    ap after_name (split_at-length t.name_text (length t.key_text ∷ rest1))
    ∙ ap (after_key t.name_text) (split_at-length t.key_text (length t.signature_text ∷ rest2))
    ∙ ap (after_signature t.name_text t.key_text)
        (split_at-length t.signature_text (t.created_number ∷ t.address_text))

abbrev pub texts : Toml
texts = record {
  print_private = λ t. t.seed_text;
  print_identity = print;
  parse_private = λ s. some (record { seed_text = s });
  parse_identity = parse;
}

same_folder : (q a b : Bytes) → q ++ a ≡ q ++ b → a ≡ b
same_folder [] a b e = e
same_folder (c ∷ q) a b e = same_folder q a b (cc)

files_differ : (q : Bytes) → (q ++ b'/' ∷ secret_file) ≢ (q ++ b'/' ∷ identity_file)
files_differ q e =
    let same = same_folder q (b'/' ∷ secret_file) (b'/' ∷ identity_file) e in ground (arith, same)

list_key-generate_key_example :
    (d' : Disk) × (generate_key plain texts empty
        (root_config (1 ∷ []))
        (b'm' ∷ b' ' ∷ b'e' ∷ [])
        (record { seed = 8 ∷ []; public = some someone })
        someone
      ≡ some d')
    × (list_key plain texts d' (key_config plain texts (root_config (1 ∷ [])) (b'm' ∷ b'e' ∷ []))
        ≡ some (d', repr someone ++ b'\n' ∷ b'\n' ∷ []))
unfolding process
list_key-generate_key_example =
    list_key-generate_key plain texts empty (root_config (1 ∷ [])) (b'm' ∷ b' ' ∷ b'e' ∷ [])
      (b'm' ∷ b'e' ∷ []) (record { seed = 8 ∷ []; public = some someone }) someone refl
      (omega arith, tt) (omega arith, tt) (omega arith, tt) (λ q. refl) (λ q. refl) (λ q. refl)
      (λ q. refl) files_differ (λ t. refl) parse-print
