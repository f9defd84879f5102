-- ===== src/Beamlit/Client.antt =====
-- model.go and policies.go of internal/beamlit.
use beamlit_controller.Base.{
  Bool, true, false, Option, none, some, Text, Text_Eq, bytes, Dict, insert, ℤ_Eq, pos, leb_ℤ, Act,
  Result, ok, panic, failure, pure, raise, crash, lift, deref, ◌>>=◌, ◌>>◌, ◌==◌, if◌then◌else◌,
}
use beamlit_controller.Beamlit.Types.{Model, RemotePolicy, Response, Sdk}

abbrev pub is_missing : Response → Bool
is_missing r = r.status == pos 404

-- resp.StatusCode >= 299
abbrev pub is_refused : Response → Bool
is_refused r = leb_ℤ (pos 299) r.status

-- strconv.FormatBool
abbrev pub format_bool : Bool → Text
format_bool true = bytes "true"
format_bool false = bytes "false"

-- *m.Metadata.Labels, where labels that are not given are a nil map, which cannot be written to
abbrev pub with_label : Text → Text → Option (Dict Text Text) → Result (Dict Text Text)
with_label k v none = panic
with_label k v (some labels) = ok (insert k v labels)

module _ {W T : Type 0} (b : Sdk W T) where
  unfoldable pub create_model : Model T → Act W (Model T)
  create_model m = do
    r ← b.create_model m
    if is_refused r then raise (failure "failed to update Model") else lift (b.decode_model r.body)

  unfoldable pub update_model : Text → Model T → Act W (Model T)
  update_model name m = do
    r ← b.update_model name m
    if is_refused r then raise (failure "failed to update Model") else lift (b.decode_model r.body)

  abbrev pub sync_named : Model T → Option Text → Option Text → Act W (Model T)
  sync_named m none e = raise (failure "name and environment are required")
  sync_named m (some n) none = raise (failure "name and environment are required")
  sync_named m (some n) (some e) = do
    r ← b.get_model n (some e)
    if is_missing r then create_model m else update_model n m

  unfoldable pub create_or_update_model : Model T → Act W (Model T)
  unfolding create_model update_model
  create_or_update_model m = do
    metadata ← deref m.metadata
    sync_named m metadata.name metadata.environment

  unfoldable pub delete_model_deployment : Text → Text → Act W (Unit {0})
  delete_model_deployment model environment = do
    r ← b.delete_model model environment
    if is_missing r
        then pure tt
        else if is_refused r
        then raise (failure "failed to delete Model")
        else pure tt

  -- The answer to the update is not looked at.
  unfoldable pub notify_on_model_offloading : Text → Text → Bool → Act W (Unit {0})
  notify_on_model_offloading model environment offloading = do
    r ← b.get_model model (some environment)
    if is_refused r then raise (failure "failed to get ModelDeployment") else do
      m ← lift (b.decode_model r.body)
      metadata ← deref m.metadata
      labels ← lift (with_label (bytes "offloading") (format_bool offloading) metadata.labels)
      b.update_model model (record m { metadata = some (record metadata { labels = some labels }) })
      pure tt

  abbrev pub written_policy : Response → Act W RemotePolicy
  written_policy r =
      if is_refused r
      then raise (failure "failed to update Policy")
      else lift (b.decode_policy r.body)

  -- On another status the text of the error reads the answer of a request that was not made.
  abbrev pub sync_policy : RemotePolicy → Option Text → Act W RemotePolicy
  sync_policy p none = raise (failure "policy name is required")
  sync_policy p (some n) = do
    r ← b.get_policy n
    if is_missing r
        then (do a ← b.create_policy p; written_policy a)
        else if r.status == pos 200
        then (do a ← b.update_policy n p; written_policy a)
        else crash

  unfoldable pub create_or_update_policy : RemotePolicy → Act W RemotePolicy
  create_or_update_policy p = sync_policy p p.name

  unfoldable pub delete_policy : Text → Act W (Unit {0})
  delete_policy name = do
    r ← b.delete_policy name
    if is_missing r
        then pure tt
        else if is_refused r
        then raise (failure "failed to delete Policy")
        else pure tt
