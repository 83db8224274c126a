-- ===== src/Broker/Core.antt =====
-- operator_core.py: the pinned contract, the paths and the digest shape.
use alertmind.Prelude.{ℕ, ◌*◌, Bool, ◌&&◌, ◌||◌, List, [], ◌∷◌, ◌++◌, all, length, nat_eq, Option}
use alertmind.Text.{Text, text, between}

unfoldable pub base : Text
base = text "/usr/share/wazuh-dashboard/"

unfoldable pub client : Text
unfolding base
client = base ++ text "plugins/wazuhCore/server/services/server-api-client.js"

unfoldable pub node : Text
unfolding base
node = base ++ text "node/bin/node"

unfoldable pub header : Text
unfolding base
header = base ++ text "node/include/node/node_version.h"

unfoldable pub package_version : Text
package_version = text "4.14.7-1"

unfoldable pub original_sha256 : Text
original_sha256 = text "d691047acfa9b9a779a94251c6b813e0296eaf53b3b202e89cb56b44eee48afb"

unfoldable pub candidate_sha256 : Text
candidate_sha256 = text "fe721feb8599293853e10d33823e68ff72df001be00382e3701d5da645aba28f"

unfoldable pub packaged_node_version : Text
packaged_node_version = text "18.19.0"

unfoldable pub packaged_linux_node_sha256 : Text
packaged_linux_node_sha256 = text "157f76a2eff8bbe4017cfecdac5629b9e60c7a6106fed26ab6e2cda802b89cd0"

unfoldable pub packaged_node_header_sha256 : Text
packaged_node_header_sha256 =
    text "7fec24722b96de1a2adf54e60094080c537dd7189af664f507a17b59249acc36"

unfoldable pub files_digest : Text
files_digest = text "7b071e4d9397f0a6eedc17c316ce4966e73d0f9644d445c42bcce72f488c5c2c"

-- `CONTRACT`
unfoldable pub contract : List (Text × Text)
unfolding original_sha256 candidate_sha256 packaged_node_version packaged_linux_node_sha256
    packaged_node_header_sha256 files_digest
contract =
    (text "package_sha256", text "83f472d9e5f59b28b1abb6260c466e77b99ae427ce8c5f76203d847f2f598b6f")
    ∷ (text "original_sha256", original_sha256)
    ∷ (text "candidate_sha256", candidate_sha256)
    ∷ (
      text "policy_lf_sha256",
      text "a8313d5c4475911cc17eeb252f724319c19d048ee02c2869f17892bf7cb9fca4",
    )
    ∷ (text "packaged_node_version", packaged_node_version)
    ∷ (text "packaged_linux_node_sha256", packaged_linux_node_sha256)
    ∷ (text "packaged_node_header_sha256", packaged_node_header_sha256)
    ∷ (text "files_digest", files_digest)
    ∷ []

abbrev pub max_manifest : ℕ
max_manifest = 512 * 1024

abbrev pub mebibyte : ℕ
mebibyte = 1024 * 1024

-- `re.fullmatch('[0-9a-f]{64}', s)`
unfoldable pub is_digest : Text → Bool
is_digest s = nat_eq (length s) 64 && all (λ c. between b'0' b'9' c || between b'a' b'f' c) s

-- `FileCheck`
pub record FileCheck : Type 0 where
  pub path : Text
  pub digest : Text
  pub limit : ℕ
  pub size : Option ℕ
