-- ===== src/Registry/Leaf/Included.antt =====
-- `verifyRegistry` of tools/src/registry.ts, when it accepts.
use vcap_spec.Prelude.{
  ◌≡◌, refl, sym, ap, ◌∙◌, ◌↔◌, true, some, List, map, all, arith, Option-cases, inl, inr,
}
use vcap_spec.Bytes.{Bytes, eq_bytes}
use vcap_spec.Bytes.Laws.{eq_bytes_iff}
use vcap_spec.Text.{Text, text}
use vcap_spec.Node.{Node}
use vcap_spec.Core.{verify_es256}
use vcap_spec.Registry.Messages.{tree_head_message}
use vcap_spec.Registry.Logs.{TrustedLog, find_log, log_key}
use vcap_spec.Registry.Leaf.{
  RegistryAttachment, registry_ok, has_32, leaf_key_id, included, verify_registry, check_head,
  check_binding, with_log,
}

module _ (node : Node) where
  open node use {Key, sha256, from_base64url, from_base64}

  -- What an accepted attachment has.
  pub record Accepted (a : RegistryAttachment) (key_id : Text) (sig_pub : Bytes)
      (logs : List TrustedLog) : Type 0 where
    pub log : TrustedLog
    pub trusted : find_log a.log_id logs ≡ some log
    pub key : Key
    pub usable : log_key node log ≡ some key
    pub root_size : has_32 (from_base64url a.tree_head.root_hash) ≡ true
    pub path_size : all has_32 (map from_base64url a.inclusion_path) ≡ true
    pub message : Bytes
    pub built :
        tree_head_message a.tree_head.tree_size a.tree_head.timestamp
          (from_base64url a.tree_head.root_hash)
        ≡ some message
    pub signed : verify_es256 node message (from_base64url a.tree_head.signature) key ≡ true
    pub in_tree : included node a ≡ true
    pub is_key : a.leaf.kind ≡ text "key"
    pub this_key : leaf_key_id node key_id ≡ some a.leaf.key_id
    pub this_public_key : from_base64 a.leaf.public_key ≡ sig_pub

  -- An attachment is accepted, with what its leaf and tree head say, exactly if the log it names is
  -- trusted and its key usable, that key signed the tree head, the root and the path are 32-byte
  -- hashes by which the leaf is included, and the leaf is of type `key`, for this key id and this
  -- public key.
  pub verify_registry_iff :
      (a : RegistryAttachment) (key_id : Text) (sig_pub : Bytes) (logs : List TrustedLog)
      → (verify_registry node a key_id sig_pub logs
          ≡ some (registry_ok a.leaf.secure_hw a.leaf.registered_at a.tree_head.timestamp))
        ↔ Accepted a key_id sig_pub logs
  unfolding verify_registry with_log check_head check_binding
  verify_registry_iff a key_id sig_pub logs = (accepted, reported)
    where
      accepted :
          verify_registry node a key_id sig_pub logs
            ≡ some (registry_ok a.leaf.secure_hw a.leaf.registered_at a.tree_head.timestamp)
          → Accepted a key_id sig_pub logs
      accepted h = elim (Option-cases (find_log a.log_id logs)) [
        | inl e ↦ absurd (ground (arith, e))
        | inr (log, e1) ↦ elim (Option-cases (log_key node log)) [
          | inl e ↦ absurd (ground (arith, e1, e))
          | inr (key, e2) ↦
              elim (Option-cases (
                tree_head_message a.tree_head.tree_size a.tree_head.timestamp
                  (from_base64url a.tree_head.root_hash))) [
                    | inl e ↦ absurd (ground (arith, e1, e2, e))
                    | inr (m, e3) ↦ elim (Option-cases (leaf_key_id node key_id)) [
                      | inl e ↦ absurd (ground (arith, e1, e2, e3, e))
                      | inr (w, e4) ↦
                          let same : eq_bytes a.leaf.key_id w ≡ true =
                            ground (arith, e1, e2, e3, e4) in
                          record {
                            log = log;
                            trusted = e1;
                            key = key;
                            usable = e2;
                            root_size = ground (arith, e1, e2, e3, e4);
                            path_size = ground (arith, e1, e2, e3, e4);
                            message = m;
                            built = e3;
                            signed = ground (arith, e1, e2, e3, e4);
                            in_tree = ground (arith, e1, e2, e3, e4);
                            is_key =
                                (eq_bytes_iff a.leaf.kind (text "key")).0
                                  (ground (arith, e1, e2, e3, e4));
                            this_key = e4 ∙ ap some (sym ((eq_bytes_iff a.leaf.key_id w).0 same));
                            this_public_key =
                                (eq_bytes_iff (from_base64 a.leaf.public_key) sig_pub).0
                                  (ground (arith, e1, e2, e3, e4));
                          }
                    ]
                  ]
        ]
      ]

      reported :
          Accepted a key_id sig_pub logs
          → verify_registry node a key_id sig_pub logs
            ≡ some (registry_ok a.leaf.secure_hw a.leaf.registered_at a.tree_head.timestamp)
      reported r = ground (
        arith,
        r.trusted,
        r.usable,
        r.root_size,
        r.path_size,
        r.built,
        r.signed,
        r.in_tree,
        (eq_bytes_iff a.leaf.kind (text "key")).1 r.is_key,
        r.this_key,
        (eq_bytes_iff a.leaf.key_id a.leaf.key_id).1 refl,
        (eq_bytes_iff (from_base64 a.leaf.public_key) sig_pub).1 r.this_public_key,
      )
