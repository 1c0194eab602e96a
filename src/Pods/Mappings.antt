-- ===== src/Pods/Mappings.antt =====
-- The default tables of pkg/status/sanitizer.go, in the order of the source.
use waverless.Base.{[], ◌∷◌, String}
use waverless.Base.Dict.{StringMap}

pub record SanitizedError : Type 0 where
  pub user_message : String
  pub suggestion : String
  pub error_code : String

abbrev pub image_pull_error_mappings : StringMap SanitizedError
image_pull_error_mappings =
    (
      "ImagePullBackOff",
      record {
        user_message = "Image pull failed, system is retrying";
        suggestion = "Please check if the image name is correct and if you have access permissions";
        error_code = "IMG_PULL_BACKOFF";
      },
    )
    ∷ (
      "ErrImagePull",
      record {
        user_message = "Failed to pull image";
        suggestion =
            "Please verify the image exists and is accessible. For private images, configure access credentials";
        error_code = "IMG_PULL_ERROR";
      },
    )
    ∷ (
      "InvalidImageName",
      record {
        user_message = "Invalid image name format";
        suggestion =
            "Please check the image name format, ensure it follows registry/repository:tag format";
        error_code = "IMG_INVALID_NAME";
      },
    )
    ∷ (
      "ImageInspectError",
      record {
        user_message = "Failed to inspect image";
        suggestion = "Please verify the image exists and has correct format";
        error_code = "IMG_INSPECT_ERROR";
      },
    )
    ∷ (
      "RegistryUnavailable",
      record {
        user_message = "Registry unavailable";
        suggestion = "Please try again later or check if the registry address is correct";
        error_code = "IMG_REGISTRY_UNAVAILABLE";
      },
    )
    ∷ (
      "image_pull_failed",
      record {
        user_message = "Image pull failed";
        suggestion = "Please check the image name and access permissions";
        error_code = "IMG_PULL_FAILED";
      },
    )
    ∷ (
      "image_not_found",
      record {
        user_message = "Image not found";
        suggestion =
            "Please verify the image name is correct and the image has been pushed to the registry";
        error_code = "IMG_NOT_FOUND";
      },
    )
    ∷ (
      "image_auth_failed",
      record {
        user_message = "Image authentication failed";
        suggestion = "Please check if the registry credentials are correct";
        error_code = "IMG_AUTH_FAILED";
      },
    )
    ∷ (
      "default",
      record {
        user_message = "Image loading failed";
        suggestion = "Please check if the image configuration is correct";
        error_code = "IMG_ERROR";
      },
    )
    ∷ []

abbrev pub container_crash_error_mappings : StringMap SanitizedError
container_crash_error_mappings =
    (
      "CrashLoopBackOff",
      record {
        user_message = "Container keeps crashing after startup";
        suggestion = "Please check if the container startup command and configuration are correct";
        error_code = "CONTAINER_CRASH_LOOP";
      },
    )
    ∷ (
      "Error",
      record {
        user_message = "Container runtime error";
        suggestion = "Please check container logs for detailed error information";
        error_code = "CONTAINER_ERROR";
      },
    )
    ∷ (
      "OOMKilled",
      record {
        user_message = "Container terminated due to out of memory";
        suggestion = "Please increase memory limit or optimize application memory usage";
        error_code = "CONTAINER_OOM";
      },
    )
    ∷ (
      "ContainerCannotRun",
      record {
        user_message = "Container cannot start";
        suggestion = "Please check container configuration and startup command";
        error_code = "CONTAINER_CANNOT_RUN";
      },
    )
    ∷ (
      "container_crashed",
      record {
        user_message = "Container crashed";
        suggestion = "Please check if the application is working properly";
        error_code = "CONTAINER_CRASHED";
      },
    )
    ∷ (
      "container_exit_error",
      record {
        user_message = "Container exited abnormally";
        suggestion = "Please check container logs for detailed error information";
        error_code = "CONTAINER_EXIT_ERROR";
      },
    )
    ∷ (
      "default",
      record {
        user_message = "Container runtime failed";
        suggestion = "Please check container configuration and logs";
        error_code = "CONTAINER_FAIL";
      },
    )
    ∷ []

abbrev pub resource_limit_error_mappings : StringMap SanitizedError
resource_limit_error_mappings =
    (
      "OutOfMemory",
      record {
        user_message = "Insufficient memory resources";
        suggestion = "Please increase memory configuration or select a larger spec";
        error_code = "RESOURCE_OOM";
      },
    )
    ∷ (
      "OutOfCpu",
      record {
        user_message = "Insufficient CPU resources";
        suggestion = "Please increase CPU configuration or select a larger spec";
        error_code = "RESOURCE_CPU";
      },
    )
    ∷ (
      "OutOfGpu",
      record {
        user_message = "Insufficient GPU resources";
        suggestion = "Please try again later or select a different GPU type";
        error_code = "RESOURCE_GPU";
      },
    )
    ∷ (
      "Unschedulable",
      record {
        user_message = "Cannot schedule to available node";
        suggestion = "Please try again later, system is looking for available resources";
        error_code = "RESOURCE_UNSCHEDULABLE";
      },
    )
    ∷ (
      "insufficient_resources",
      record {
        user_message = "Insufficient resources";
        suggestion = "Please try again later or select a different spec";
        error_code = "RESOURCE_INSUFFICIENT";
      },
    )
    ∷ (
      "gpu_unavailable",
      record {
        user_message = "GPU resources temporarily unavailable";
        suggestion = "Please try again later or select a different GPU type";
        error_code = "RESOURCE_GPU_UNAVAILABLE";
      },
    )
    ∷ (
      "default",
      record {
        user_message = "Resource limit reached";
        suggestion = "Please check resource configuration or try again later";
        error_code = "RESOURCE_LIMIT";
      },
    )
    ∷ []

abbrev pub timeout_error_mappings : StringMap SanitizedError
timeout_error_mappings =
    (
      "ImagePullTimeout",
      record {
        user_message = "Image pull timeout";
        suggestion = "Please check image size and network connection, or try again later";
        error_code = "TIMEOUT_IMAGE_PULL";
      },
    )
    ∷ (
      "StartupTimeout",
      record {
        user_message = "Container startup timeout";
        suggestion =
            "Please check if the container startup command is correct, or increase startup timeout";
        error_code = "TIMEOUT_STARTUP";
      },
    )
    ∷ (
      "HealthCheckTimeout",
      record {
        user_message = "Health check timeout";
        suggestion = "Please check health check configuration and application response time";
        error_code = "TIMEOUT_HEALTH_CHECK";
      },
    )
    ∷ (
      "default",
      record {
        user_message = "Operation timeout";
        suggestion = "Please try again later";
        error_code = "TIMEOUT";
      },
    )
    ∷ []

abbrev pub unknown_error_mappings : StringMap SanitizedError
unknown_error_mappings =
    (
      "default",
      record {
        user_message = "Unknown error occurred";
        suggestion = "Please contact technical support for help";
        error_code = "UNKNOWN_ERROR";
      },
    )
    ∷ []
