-- ===== src/Preflight/Target/Sample.antt =====
-- A project whose frontend is there, does not run, and mounts its volume; and a Docker command
-- line that answers for it.
use doris_ducklake.Prelude.{
  List, Result, String, Text, err, false, if◌then◌else◌, ok, subprocess_error, text, text_eq, true,
  ◌∷◌,
}
use doris_ducklake.Json.{Fields, Value, arr, bool, cons, end, field, nil, obj, str}
use doris_ducklake.Preflight.Target.{
  Target, frontend, plugin_mount, project_label, service_label, volume_label,
}

abbrev pub text_field : String → String → Fields → Fields
text_field k v fs = field (text k) (str (text v)) fs

abbrev pub a_config : Value
a_config = obj (
    text_field "name" "proj" (
      field (text "services")
        (obj (
          field frontend
            (obj (
              text_field "container_name" "fe" (
                text_field "image" "img" (
                  field (text "volumes")
                    (arr (
                      cons
                        (obj (
                          text_field "type" "volume" (
                            text_field "source" "plugins"
                              (field (text "target") (str plugin_mount) end))))
                        nil))
                    end))))
            end))
        (field (text "volumes")
          (obj (field (text "plugins") (obj (text_field "name" "pv" end)) end)) end)))

abbrev pub some_labels : Value
some_labels = obj (
    field project_label (str (text "proj"))
      (field service_label (str frontend) (field volume_label (str (text "plugins")) end)))

abbrev pub fe_container : Value
fe_container = obj (
    field (text "Config") (obj (field (text "Labels") some_labels end)) (
      text_field "Id" "id1" (
        field (text "State") (obj (field (text "Running") (bool false) end)) (
          text_field "Name" "/fe" (
            field (text "Mounts")
              (arr (
                cons
                  (obj (
                    text_field "Type" "volume"
                      (text_field "Name" "pv" (field (text "Destination") (str plugin_mount) end))))
                  nil))
              (field (text "HostConfig")
                (obj (
                  text_field "NetworkMode" "proj_default" (
                    field (text "PublishAllPorts") (bool false)
                      (field (text "PortBindings") (obj end) end))))
                (field (text "NetworkSettings") (obj (field (text "Ports") (obj end) end))
                  end)))))))

abbrev pub answer_to : Text → Text → Text
answer_to first second =
    if text_eq first (text "compose")
    then text "config"
    else if text_eq second (text "inspect")
    then first
    else if text_eq first (text "volume")
    then text "pv"
    else text "id1"

abbrev pub answers : List Text → Result Text
answers (first ∷ second ∷ rest) = ok (answer_to first second)
answers _ = err subprocess_error

abbrev pub decodes : Text → Result Value
decodes t =
    if text_eq t (text "config")
    then ok a_config
    else if text_eq t (text "container")
    then ok (arr (cons fe_container nil))
    else ok (arr (cons (obj (field (text "Labels") some_labels end)) nil))

abbrev pub constant_digest : Value → Text
constant_digest v = text "d"

abbrev pub a_target : Target
a_target = record {
  spec = record {
    project = text "proj";
    container = text "fe";
    key = text "plugins";
    volume = text "pv";
    image = str (text "img");
  };
  compose_sha256 = text "d";
  fe_present = true;
  volume_present = true;
}
