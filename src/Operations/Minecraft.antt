-- ===== src/Operations/Minecraft.antt =====
-- The operations that install a server of Minecraft (impl/mojangdl, impl/forgedl, impl/spongeforgedl).
use pufferd.Common.{
  ℕ, String, List, [], ◌∷◌, Option, none, some, is_some, if◌then◌else◌, ◌==◌, not, ◌&&◌, ltb,
  length, lookup,
}
use pufferd.Types.{
  Err, other, is_exist, Result, ok, err, LauncherJson, LauncherVersion, SpongeDownload,
}
use pufferd.Text.{◌<>◌, has_prefix, replace_all}
use pufferd.FilePath.{join}
use pufferd.World.{Call, Outside, Go, pure, crash, ◌>>=◌, ◌>>◌, ask, ask_reply, tell}
use pufferd.Operations.Downloads.{download_file, download_via_maven}

-- `client.Get` of a document and its decoding; the body is closed, which may fail.
unfoldable pub fetch_json : {A : Type 0} → Outside → (String → Result A) → String → Go (Result A)
fetch_json o parse url = do
  failed ← ask o (Call.http_get url)
  elim failed [
    | some e ↦ pure (err e)
    | none ↦ ask_reply o (Call.http_read url) >>= λ body. elim (parse body.0) [
      | err e ↦ pure (err e)
      | ok a ↦ ask o (Call.http_close url) >>= λ closed. elim closed [
        | some e ↦ pure (err e)
        | none ↦ pure (ok a)
      ]
    ]
  ]

abbrev pub version_json_url : String
version_json_url = "https://launchermeta.mojang.com/mc/game/version_manifest.json"

-- The `switch` over the wanted version.
unfoldable pub target_version : LauncherJson → String → String
target_version launcher version =
    if version == "release"
    then launcher.latest_release
    else if version == "latest"
    then launcher.latest_release
    else if version == "snapshot"
    then launcher.latest_snapshot
    else version

unfoldable pub find_version : String → List LauncherVersion → Option LauncherVersion
find_version target [] = none
find_version target (v ∷ vs) = if v.id == target then some v else find_version target vs

-- `m[k].Url`, "" where there is no such entry.
unfoldable pub url_of : String → List (String × String) → String
url_of k m = elim (lookup k m) [ some url ↦ url | none ↦ "" ]

-- `downloadServerFromJson`; the server block is the empty one where the document has none.
unfoldable pub download_server : Outside → ℕ → String → String → Go (Option Err)
unfolding fetch_json download_file url_of
download_server o e url target = fetch_json o o.version_json url >>= λ read. elim read [
  | err failed ↦ pure (some failed)
  | ok downloads ↦
      let server = url_of "server" downloads in
      tell o (Call.display e ("Version jar located, downloading from " <> server <> "\n") [])
      >> download_file o server target e
]

unfoldable pub run_mojang_dl : Outside → ℕ → String → String → Go (Option Err)
unfolding fetch_json download_server target_version find_version
run_mojang_dl o e version target = fetch_json o o.launcher_json version_json_url >>= λ read.
    elim read [
      | err failed ↦ pure (some failed)
      | ok launcher ↦
          let wanted = target_version launcher version in
          elim (find_version wanted launcher.versions) [
            | some v ↦
                tell o (
                  Call.display e
                    ("Version " <> v.id <> " json located, downloading from " <> v.url <> "\n") [])
                >> download_server o e v.url target
            | none ↦
                tell o (Call.display e ("Could not locate version " <> wanted <> "\n") [])
                >> pure (some (other ("Version not located: " <> version)))
          ]
    ]

abbrev pub installer_url : String
installer_url =
    "https://files.minecraftforge.net/maven/net/minecraftforge/forge/${version}/forge-${version}-installer.jar"

unfoldable pub run_forge_dl : Outside → ℕ → String → String → Go (Option Err)
unfolding replace_all download_via_maven join
run_forge_dl o e version filename = do
  (local, failed) ← download_via_maven o (replace_all installer_url "${version}" version) (some e)
  if is_some failed
      then pure failed
      else ask o (Call.copy_file local (join (o.root_directory e) filename))

abbrev pub download_api_url : String
download_api_url =
    "https://dl-api.spongepowered.org/v1/org.spongepowered/spongeforge/downloads?type=stable&limit=1"

abbrev pub recommended_api_url : String
recommended_api_url =
    "https://dl-api.spongepowered.org/v1/org.spongepowered/spongeforge/downloads/recommended"

-- `all[0]`: a panic where the list is empty.
unfoldable pub first_download : Result (List SpongeDownload) → Go (Result SpongeDownload)
first_download (err e) = pure (err e)
first_download (ok []) = crash
first_download (ok (d ∷ ds)) = pure (ok d)

unfoldable pub version_data : Outside → String → Go (Result SpongeDownload)
unfolding fetch_json first_download
version_data o release =
    if release == "latest"
    then fetch_json o o.sponge_downloads download_api_url >>= first_download
    else fetch_json o o.sponge_download recommended_api_url

-- The version handed to the forge operation: `version += minecraft + "-" + version`.
unfoldable pub forge_version : SpongeDownload → String
unfolding has_prefix
forge_version d =
    if has_prefix d.forge d.minecraft then d.forge else d.forge <> (d.minecraft <> "-" <> d.forge)

unfoldable pub install_sponge : Outside → ℕ → SpongeDownload → Go (Option Err)
unfolding run_forge_dl forge_version url_of is_exist join download_via_maven
install_sponge o e d = do
  failed ← run_forge_dl o e (forge_version d) "forge-installer.jar"
  if is_some failed then pure failed else do
    made ← ask o (Call.mkdir (join (o.root_directory e) "mods"))
    if is_some made && not (is_exist made) then pure made else do
      (file, missing) ← download_via_maven o (url_of "" d.artifacts) (some e)
      if is_some missing
          then pure missing
          else ask o (Call.copy_file file (join "mods" "_aspongeforge.jar"))

unfoldable pub run_sponge_forge_dl : Outside → ℕ → String → Go (Option Err)
unfolding version_data install_sponge
run_sponge_forge_dl o e release = version_data o release >>= λ read. elim read [
  | err failed ↦ pure (some failed)
  | ok d ↦
      if ltb 0 (length d.artifacts)
      then install_sponge o e d
      else pure (some (other "no artifacts found to download"))
]
