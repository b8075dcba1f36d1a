-- ===== src/Pgp.antt =====
-- old/pgp/keys.go: the batch file that tells gpg to make a key, the way to the key, and its scalar. The
-- operating system, gpg, the parser of packets and the hash are parameters.
pub mod Batch
use mulsigo.Prelude.{
  ℕ, Bool, true, false, Option, none, some, List, [], ◌∷◌, ◌++◌, Bytes, Result, ok, err, ◌>>=◌,
  take,
}
use mulsigo.Client.Keys.{clamp}

pub record GpgKeyInfo : Type 0 where
  pub name : Bytes
  pub comment : Bytes
  pub email : Bytes

-- The lines of the file, without the texts of the user.
abbrev pub no_protection : Bytes
no_protection =
    b'%' ∷ b'n' ∷ b'o' ∷ b'-' ∷ b'p' ∷ b'r' ∷ b'o' ∷ b't' ∷ b'e' ∷ b'c' ∷ b't' ∷ b'i' ∷ b'o' ∷ b'n'
    ∷ b'\n' ∷ []

abbrev pub key_type : Bytes
key_type =
    b'K' ∷ b'e' ∷ b'y' ∷ b'-' ∷ b'T' ∷ b'y' ∷ b'p' ∷ b'e' ∷ b':' ∷ b' ' ∷ b'e' ∷ b'd' ∷ b'd' ∷ b's'
    ∷ b'a' ∷ b'\n' ∷ []

abbrev pub key_curve : Bytes
key_curve =
    b'K' ∷ b'e' ∷ b'y' ∷ b'-' ∷ b'C' ∷ b'u' ∷ b'r' ∷ b'v' ∷ b'e' ∷ b':' ∷ b' ' ∷ b'E' ∷ b'd' ∷ b'2'
    ∷ b'5' ∷ b'5' ∷ b'1' ∷ b'9' ∷ b'\n' ∷ []

abbrev pub name_real : Bytes
name_real = b'N' ∷ b'a' ∷ b'm' ∷ b'e' ∷ b'-' ∷ b'R' ∷ b'e' ∷ b'a' ∷ b'l' ∷ b':' ∷ b' ' ∷ []

abbrev pub name_comment : Bytes
name_comment =
    b'N' ∷ b'a' ∷ b'm' ∷ b'e' ∷ b'-' ∷ b'C' ∷ b'o' ∷ b'm' ∷ b'm' ∷ b'e' ∷ b'n' ∷ b't' ∷ b':' ∷ b' '
    ∷ []

abbrev pub name_email : Bytes
name_email = b'N' ∷ b'a' ∷ b'm' ∷ b'e' ∷ b'-' ∷ b'E' ∷ b'm' ∷ b'a' ∷ b'i' ∷ b'l' ∷ b':' ∷ b' ' ∷ []

abbrev pub expire_date : Bytes
expire_date =
    b'E' ∷ b'x' ∷ b'p' ∷ b'i' ∷ b'r' ∷ b'e' ∷ b'-' ∷ b'D' ∷ b'a' ∷ b't' ∷ b'e' ∷ b':' ∷ b' ' ∷ b'1'
    ∷ b'y' ∷ b'\n' ∷ []

abbrev pub commit : Bytes
commit = b'%' ∷ b'c' ∷ b'o' ∷ b'm' ∷ b'm' ∷ b'i' ∷ b't' ∷ b'\n' ∷ []

abbrev pub echo_done : Bytes
echo_done =
    b'%' ∷ b'e' ∷ b'c' ∷ b'h' ∷ b'o' ∷ b' ' ∷ b'g' ∷ b'p' ∷ b'g' ∷ b':' ∷ b' ' ∷ b'm' ∷ b'u' ∷ b'l'
    ∷ b's' ∷ b'i' ∷ b'g' ∷ b'o' ∷ b' ' ∷ b'k' ∷ b'e' ∷ b'y' ∷ b'g' ∷ b'e' ∷ b'n' ∷ b' ' ∷ b'd'
    ∷ b'o' ∷ b'n' ∷ b'e' ∷ []

unfoldable pub batch : GpgKeyInfo → Bytes
batch g =
    no_protection
    ++ (key_type
        ++ (key_curve
            ++ (name_real
                ++ (g.name
                    ++ b'\n'
                      ∷ (name_comment
                          ++ (g.comment
                              ++ b'\n'
                                ∷ (name_email
                                    ++ (g.email
                                        ++ b'\n' ∷ (expire_date ++ (commit ++ echo_done))))))))))

-- The errors of the calls, by a number.
pub data Error : Type 0 where
  os_error : ℕ → Error
  not_private : Error

-- What a call gives that returns only an error.
abbrev failing : Option ℕ → Result Error (Unit {0})
failing none = ok tt
failing (some e) = err (os_error e)

-- What `createKey` asks of the system: the name of a new file, the errors of writing to it and of
-- closing it, and what the command prints when it reads that text, with its error.
pub record Gpg : Type 0 where
  pub temp_file : Result Error Bytes
  pub write_error : Option ℕ
  pub close_error : Option ℕ
  pub full_gen_key : Bytes → Bytes → Bytes × Option ℕ
  pub export_secret_keys : Bytes → Bytes × Option ℕ

-- The output is returned together with the error of the command.
unfoldable pub create_key : Gpg → Bytes → GpgKeyInfo → Result Error (Bytes × Option ℕ)
unfolding batch
create_key gpg homedir g = gpg.temp_file >>= λ f. failing gpg.write_error >>= λ u.
    failing gpg.close_error >>= λ v. ok (gpg.full_gen_key homedir (batch g))

-- A packet that is a private key, or another.
pub data GpgPacket (K : Type 0) : Type 0 where
  private_key : K → GpgPacket K
  other_packet : GpgPacket K

unfoldable pub as_private : {K : Type 0} → GpgPacket K → Result Error K
as_private (private_key k) = ok k
as_private other_packet = err not_private

-- `readKey`, over the parser of the first packet.
unfoldable pub read_key :
    {K : Type 0} → Gpg → (Bytes → Result Error (GpgPacket K)) → Bytes → Result Error K
unfolding as_private
read_key gpg read_packet homedir =
    let (out, e) = gpg.export_secret_keys homedir in
    failing e >>= λ u. read_packet out >>= λ p. as_private p

-- `scalarFromSeed`, up to the reduction by the group library: the bytes of the scalar.
unfoldable pub scalar_from_seed : (Bytes → Bytes) → Bytes → Bytes
scalar_from_seed sum512 priv = take 32 (clamp (sum512 (take 32 priv)))
