-- ===== src/Configuration/Roles.antt =====
-- config/from_document.py: the roles of a document, `_role` and `_derived`.
use Prim.Native.Char.{Char}
use ancalagon.Base.{
  String, same_text, FilePath, Bool, true, false, not, ◌&&◌, ◌||◌, if◌then◌else◌, Result, ok, raise,
  value_error, ◌>>=◌,
}
use ancalagon.Session.Faults.{ClassRef, same_class, free_text}
use ancalagon.Configuration.Document.{SerialisableRole}

-- `NO_RUN`.
abbrev pub no_run_ref : ClassRef
no_run_ref = record { source = "ancalagon.contracts.no_run"; name = "no_run" }

abbrev has_char : Char → String → Bool
has_char c String.[] = false
has_char c (String.◌∷◌ d text) = same_text (String.◌∷◌ c "") (String.◌∷◌ d "") || has_char c text

-- `[A-Za-z_]`.
unfoldable pub is_letter : Char → Bool
is_letter c = has_char c "ABCDEFGHIJKLMNOPQRSTUVWXYZabcdefghijklmnopqrstuvwxyz_"

-- `[A-Za-z0-9_]*$`: the end of a text is also just before a line feed that ends it.
unfoldable pub is_word : String → Bool
unfolding is_letter
is_word String.[] = true
is_word (String.◌∷◌ c text) =
    let rest = is_word text in
    (is_letter c || has_char c "0123456789") && rest || same_text (String.◌∷◌ c text) "\n"

-- `ROLE_NAME.match`.
unfoldable pub is_role_name : String → Bool
unfolding is_letter is_word
is_role_name String.[] = false
is_role_name (String.◌∷◌ c text) = is_letter c && is_word text

-- Paths as Python reads and writes them; `expanduser` and `resolve` of the file system, which may raise,
-- as where there is no home directory to be found; and `run_contracts`, which inspects the signature of
-- the function that a role names.
pub record Python : Type 0 where
  pub path_of : String → FilePath
  pub str : FilePath → String
  pub is_absolute : FilePath → Bool
  pub expanduser : FilePath → Result FilePath
  pub resolve : FilePath → Result FilePath
  pub run_contracts : ClassRef → Result (ClassRef × ClassRef)

module _ (py : Python) where
  -- `_derived`.
  unfoldable pub derived : SerialisableRole → Result SerialisableRole
  derived written =
      if same_class written.run no_run_ref
      then ok written
      else if not (same_class written.input free_text) || not (same_class written.answer free_text)
      then raise value_error
      else (do
        contracts ← py.run_contracts written.run
        ok (record written { input = contracts.0; answer = contracts.1 }))

  -- `_role`.
  unfoldable pub role_written : String → SerialisableRole → Result SerialisableRole
  unfolding derived is_role_name
  role_written name written = if is_role_name name then derived written else raise value_error

  unfoldable pub named_role : String × SerialisableRole → Result (String × SerialisableRole)
  unfolding role_written
  named_role item = do role ← role_written item.0 item.1; ok (item.0, role)
