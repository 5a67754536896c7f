-- ===== src/Workdir/Tests.antt =====
-- Path components at concrete texts.
use ormas_subnet.Common.{◌≡◌, refl, false, str, ok, ◌>>◌}
use ormas_subnet.Workdir.{is_safe_component, require_safe_component}
use ormas_subnet.Workdir.Laws.{IsContained, require_safe_component-IsContained}

parent_is_refused : is_safe_component ".." ≡ false
unfolding is_safe_component
parent_is_refused = refl

task_is_safe : require_safe_component (str "task-1") "task_id" ≡ ok "task-1"
unfolding require_safe_component is_safe_component ◌>>◌
task_is_safe = refl

require_safe_component-IsContained_example : (str "task-1" ≡ str "task-1") × IsContained "task-1"
require_safe_component-IsContained_example =
    require_safe_component-IsContained (str "task-1") "task_id" task_is_safe
