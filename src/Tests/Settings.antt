-- ===== src/Tests/Settings.antt =====
-- The theorems on the configuration, at a file with one library and a login.
use loku.Base.{Bool, true, none, some, [], ◌∷◌, ◌≡◌, ◌≢◌, ◌↔◌, refl, map}
use loku.Base.Paths.{FilePath}
use loku.Library.{LibraryFileEntry, LibraryKind}
use loku.Config.{resolve_libraries, resolved, library_candidates, library_of_entry}
use loku.Config.Libraries.{AreAcceptable, resolve_libraries_iff}
use loku.Base.Text.{codes}
use loku.Config.Settings.{Environment, OidcFields, OidcConfig, set, resolve_oidc, resolve_state_dir}
use loku.Config.Configured.{IsConfigured, IsWithoutLogin, resolve_oidc_iff}
use loku.Tests.Fixtures.{discs}

abbrev entry : LibraryFileEntry
entry = record {
  name = codes "discs";
  path = codes "" ∷ codes "srv" ∷ [];
  kind = LibraryKind.discs;
}

abbrev all_there : FilePath → Bool
all_there path = true

resolve_libraries_iff_example :
    (resolve_libraries all_there none (some (entry ∷ [])) ≡ resolved (discs ∷ [])) ↔ (
      (library_candidates none (some (entry ∷ [])) ≢ [])
      × AreAcceptable all_there [] (library_candidates none (some (entry ∷ [])))
      × ((discs ∷ []) ≡ map library_of_entry (library_candidates none (some (entry ∷ [])))))
resolve_libraries_iff_example =
    resolve_libraries_iff all_there none (some (entry ∷ [])) (discs ∷ [])

abbrev environment : Environment
environment = record {
  state_directory = none;
  xdg_state_home = none;
  home = some (codes "/home/loku");
  credential_secret_path = some (codes "/run/secret");
  read_to_string = λ path. some (codes "hush\n");
}

abbrev on_command_line : OidcFields
on_command_line = record {
  issuer = some (codes "https://sso.example.com");
  client_id = none;
  secret_file = none;
}

abbrev in_file : OidcFields
in_file = record { issuer = none; client_id = some (codes "loku"); secret_file = none }

abbrev login : OidcConfig
login = record {
  issuer = codes "https://sso.example.com";
  client_id = codes "loku";
  client_secret = codes "hush";
}

resolve_oidc_iff_example :
    ((resolve_oidc environment on_command_line in_file ≡ set (some login))
      ↔ IsConfigured environment on_command_line in_file login)
    × ((resolve_oidc environment on_command_line in_file ≡ set none)
        ↔ IsWithoutLogin on_command_line in_file)
resolve_oidc_iff_example = resolve_oidc_iff environment on_command_line in_file login

-- The secret is read without the line feed behind it.
login_test : resolve_oidc environment on_command_line in_file ≡ set (some login)
unfolding resolve_oidc loku.Base.Text.trim_end loku.Base.Text.trim_start_by
    loku.Base.Text.is_whitespace
login_test = refl

state_dir_test :
    resolve_state_dir environment none none ≡ set (codes "/home/loku/.local/state/loku")
unfolding resolve_state_dir loku.Config.Settings.state_dir_from_env loku.Config.Settings.path_join
state_dir_test = refl
